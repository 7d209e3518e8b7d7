-- ===== src/Ingest/Scrub/Event/Sections.antt =====
-- Each section of an event is scrubbed once, and the other keys are left alone.
use Prim.Native.String.{String}
use text.Mathlib.TextEquality.{eq_iff}
use mathlib.Core.Bool.{true≢false}
use fork_glitchtip_glitchtip.Common.{
  ◌≡◌, Bool, true, false, Option, none, some, List, [], ◌∷◌, if◌then◌else◌, refl, ap, sym, ◌∙◌,
  Bool-cases, inl, inr,
}
use fork_glitchtip_glitchtip.Ingest.Scrub.Keys.{Scrubber, same_text, member}
use fork_glitchtip_glitchtip.Ingest.Scrub.Walk.{
  Python, Value, null, other, string, dict, sequence, Fields, no_fields, field, scrub_node,
  scrub_dict,
}
use fork_glitchtip_glitchtip.Ingest.Scrub.Walk.Secrets.{
  Alike, AlikeFields, scrub_node_hides, dict_hides,
}
use fork_glitchtip_glitchtip.Ingest.Scrub.Event.{
  event_sections, scrub_present, scrub_section, scrub_sections, scrub_event, scrub_log,
}

-- `payload.get(key)`
abbrev pub lookup : String → Fields → Option Value
lookup key no_fields = none
lookup key (field k v fs) = if same_text k key then some v else lookup key fs

abbrev pub map_value : (Value → Value) → Option Value → Option Value
map_value f none = none
map_value f (some v) = some (f v)

-- No section is listed twice.
abbrev pub Distinct : List String → Type 0
Distinct [] = Unit
Distinct (s ∷ ss) = (member s ss ≡ false) × Distinct ss

sections-Distinct : Distinct event_sections
sections-Distinct = (
  refl,
  (refl, (refl, (refl, (refl, (refl, (refl, (refl, (refl, (refl, (refl, (refl, tt))))))))))),
)

-- A text that equals `s` is not `key`, so `key` is not `s`.
unlike : (k key s : String) → k ≡ s → same_text k key ≡ false → same_text key s ≡ false
unlike k key s e differ = elim (Bool-cases (same_text key s)) [
  | inr no_match ↦ no_match
  | inl match ↦
      absurd (true≢false (sym ((eq_iff k key).1 (e ∙ sym ((eq_iff key s).0 match))) ∙ differ))
]

module _ (py : Python) (sc : Scrubber) where
  present_node : (v : Value) → scrub_present py sc v ≡ scrub_node py sc 0 v
  unfolding scrub_present scrub_node
  present_node null = refl
  present_node (other n) = refl
  present_node (string s) = refl
  present_node (dict fs) = refl
  present_node (sequence k xs) = refl

  lookup-section :
      (s key : String) (fs : Fields)
      → lookup key (scrub_section py sc s fs) ≡ (
          if same_text key s then map_value (scrub_node py sc 0) (lookup key fs) else lookup key fs)
  unfolding scrub_section
  lookup-section s key no_fields = elim (Bool-cases (same_text key s)) [
    | inl e ↦ rw e refl
    | inr e ↦ rw e refl
  ]
  lookup-section s key (field k v fs) = elim (Bool-cases (same_text k s)) [
    | inl hit ↦ elim (Bool-cases (same_text k key)) [
      | inl this ↦
          rw (hit, this, (eq_iff key s).1 (sym ((eq_iff k key).0 this) ∙ (eq_iff k s).0 hit))
            (ap some (present_node v))
      | inr differ ↦ rw (hit, differ, unlike k key s ((eq_iff k s).0 hit) differ) refl
    ]
    | inr miss ↦ elim (Bool-cases (same_text k key)) [
      | inl this ↦
          rw (miss, this, ap (λ (t : String). same_text t s) (sym ((eq_iff k key).0 this)) ∙ miss)
            refl
      | inr differ ↦ rw (miss, differ) (lookup-section s key fs)
    ]
  ]

  lookup-sections :
      (ss : List String) (key : String) (fs : Fields)
      → Distinct ss
      → lookup key (scrub_sections py sc ss fs)
        ≡ (if member key ss then map_value (scrub_node py sc 0) (lookup key fs) else lookup key fs)
  unfolding scrub_sections
  lookup-sections [] key fs d = refl
  lookup-sections (s ∷ ss) key fs (fresh, d) =
      lookup-sections ss key (scrub_section py sc s fs) d ∙ elim (Bool-cases (same_text key s)) [
        | inl this ↦
            rw
              (
                lookup-section s key fs,
                this,
                ap (λ (t : String). member t ss) ((eq_iff key s).0 this) ∙ fresh,
              )
              refl
        | inr other_key ↦ rw (lookup-section s key fs, other_key) refl
      ]

  -- Where scrubbing is enabled, an event holds afterwards, under each of the sections that may carry
  -- user data, the scrubbed value of what it held there, and under every other key what it held.
  lookup-scrub_event :
      (key : String) (payload : Fields)
      → sc.config.enabled ≡ true
      → lookup key (scrub_event py sc payload) ≡ (
          if member key event_sections
          then map_value (scrub_node py sc 0) (lookup key payload)
          else lookup key payload)
  unfolding scrub_event
  lookup-scrub_event key payload on =
      ap
        (λ (b : Bool).
          lookup key (if b then scrub_sections py sc event_sections payload else payload))
        on
      ∙ lookup-sections event_sections key payload sections-Distinct

  -- Where scrubbing is enabled, two events whose values of a section differ only under sensitive
  -- keys, down to the depth bound, hold the same value of that section after scrubbing.
  pub scrub_event_hides :
      (section : String) (p q : Fields) (v w : Value)
      → sc.config.enabled ≡ true
      → member section event_sections ≡ true
      → lookup section p ≡ some v
      → lookup section q ≡ some w
      → Alike py sc 0 v w
      → lookup section (scrub_event py sc p) ≡ lookup section (scrub_event py sc q)
  scrub_event_hides section p q v w on listed at_p at_q a =
      rw (lookup-scrub_event section p on, lookup-scrub_event section q on, listed, at_p, at_q)
        (ap some (scrub_node_hides py sc 0 v w a))

  -- Where scrubbing is enabled, two log items that differ only under sensitive keys, down to the
  -- depth bound, are the same after scrubbing.
  scrub_log_hides :
      (p q : Fields)
      → sc.config.enabled ≡ true
      → AlikeFields py sc 0 p q
      → scrub_log py sc p ≡ scrub_log py sc q
  unfolding scrub_log
  scrub_log_hides p q on a =
      ap (λ (b : Bool). if b then scrub_dict py sc 0 p else p) on
      ∙ dict_hides py sc 0 p q a
      ∙ sym (ap (λ (b : Bool). if b then scrub_dict py sc 0 q else q) on)
