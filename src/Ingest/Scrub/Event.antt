-- ===== src/Ingest/Scrub/Event.antt =====
-- apps/event_ingest/pii_scrubber.py: `scrub_event` and `scrub_log`. A payload is the fields of its
-- dictionary, of which the first with a key counts.
pub mod Sections
use Prim.Native.String.{String}
use fork_glitchtip_glitchtip.Common.{Bool, List, [], ◌∷◌, if◌then◌else◌}
use fork_glitchtip_glitchtip.Ingest.Scrub.Keys.{Scrubber, same_text}
use fork_glitchtip_glitchtip.Ingest.Scrub.Walk.{
  Python, Value, null, Fields, no_fields, field, scrub_node, scrub_dict,
}

-- EVENT_SECTIONS
abbrev pub event_sections : List String
event_sections =
    "request" ∷ "extra" ∷ "user" ∷ "contexts" ∷ "breadcrumbs" ∷ "exception" ∷ "threads" ∷ "tags"
    ∷ "logentry" ∷ "message" ∷ "csp" ∷ "spans" ∷ []

module _ (py : Python) (sc : Scrubber) where
  -- `if … is not None`
  pub scrub_present : Value → Value
  scrub_present null = null
  scrub_present value = scrub_node py sc 0 value

  pub scrub_section : String → Fields → Fields
  scrub_section section no_fields = no_fields
  scrub_section section (field key value fs) =
      let rest = scrub_section section fs in
      if same_text key section then field key (scrub_present value) fs else field key value rest

  -- the loop over the sections
  pub scrub_sections : List String → Fields → Fields
  scrub_sections [] payload = payload
  scrub_sections (s ∷ ss) payload = scrub_sections ss (scrub_section s payload)

  pub scrub_event : Fields → Fields
  scrub_event payload = if sc.config.enabled then scrub_sections event_sections payload else payload

  pub scrub_log : Fields → Fields
  scrub_log log = if sc.config.enabled then scrub_dict py sc 0 log else log
