-- ===== src/Ingest/Scrub/Samples.antt =====
-- A configuration, payloads with secrets, card numbers, and the theorems about scrubbing at them.
use Prim.Native.Char.{Char, code}
use Prim.Native.String.{String}
use fork_glitchtip_glitchtip.Common.{
  ◌≡◌, Bool, true, false, [], ◌∷◌, ◌==◌, if◌then◌else◌, refl, arith, Bool-cases, inl, inr, ap₂,
}
use fork_glitchtip_glitchtip.Ingest.Scrub.Keys.{
  ScrubConfig, Scrubber, compile, normalize_key, is_upper, is_separator, is_sensitive_key,
}
use fork_glitchtip_glitchtip.Ingest.Scrub.Keys.FastPath.{
  AllChars, LowerLaws, fast_path_agrees, is_sensitive_by_tokens,
}
use fork_glitchtip_glitchtip.Ingest.Scrub.Walk
use fork_glitchtip_glitchtip.Ingest.Scrub.Walk.{
  Python, Value, Fields, field, no_fields, dict, string, scrub_node,
}
use fork_glitchtip_glitchtip.Ingest.Scrub.Walk.Secrets.{Alike, scrub_node_hides}
use fork_glitchtip_glitchtip.Ingest.Scrub.Event.{scrub_event}
use fork_glitchtip_glitchtip.Ingest.Scrub.Event.Sections.{lookup, scrub_event_hides}

-- lower-casing that agrees with Python's on lower-case keys
abbrev fold : Char → Char
fold c = if is_upper c then "x" else c

abbrev lower : String → String
lower String.[] = ""
lower (String.◌∷◌ c s) = String.◌∷◌ (fold c) (lower s)

abbrev is_blank : Char → Bool
is_blank c = code c == 32

fold_upper : (c : Char) → is_upper (fold c) ≡ false
fold_upper c = elim (Bool-cases (is_upper c)) [ inl e ↦ rw e refl | inr e ↦ rw e e ]

fold_again : (c : Char) → fold (fold c) ≡ fold c
fold_again c = rw (fold_upper c) refl

fold_separator :
    (c : Char) → is_separator is_blank c ≡ false → is_separator is_blank (fold c) ≡ false
fold_separator c h = elim (Bool-cases (is_upper c)) [ inl e ↦ rw e refl | inr e ↦ rw e h ]

lower_upper : (s : String) → AllChars (λ c. is_upper c ≡ false) (lower s)
lower_upper String.[] = tt
lower_upper (String.◌∷◌ c s) = (fold_upper c, lower_upper s)

lower_separator :
    (s : String)
    → AllChars (λ c. is_separator is_blank c ≡ false) s
    → AllChars (λ c. is_separator is_blank c ≡ false) (lower s)
lower_separator String.[] h = tt
lower_separator (String.◌∷◌ c s) (h, hs) = (fold_separator c h, lower_separator s hs)

lower_twice : (s : String) → lower (lower s) ≡ lower s
lower_twice String.[] = refl
lower_twice (String.◌∷◌ c s) = ap₂ String.◌∷◌ (fold_again c) (lower_twice s)

laws : LowerLaws lower is_blank
laws = record { no_upper = lower_upper; no_separator = lower_separator; lower_again = lower_twice }

abbrev config : ScrubConfig
config = record {
  enabled = true;
  scrub_defaults = true;
  sensitive_keys = "Api Hint" ∷ [];
  safe_keys = "pin" ∷ [];
  aggressive_key_match = false;
  scrub_credit_cards = true;
  scrub_private_keys = true;
  scrub_emails = false;
  placeholder = "[Filtered]";
}

abbrev scrubber : Scrubber
scrubber = compile lower is_blank config

abbrev python : Python
python = record {
  lower = lower;
  is_space = is_blank;
  sub_private_key = λ f s. s;
  sub_card = λ f s. f s;
  sub_email = λ f s. s;
}

fast_path_agrees_example :
    is_sensitive_key lower is_blank scrubber "password"
    ≡ is_sensitive_by_tokens lower is_blank scrubber "password"
unfolding compile
fast_path_agrees_example = fast_path_agrees lower is_blank laws scrubber "password" refl

password_sensitive : Walk.sensitive python scrubber "password" ≡ true
unfolding is_sensitive_key normalize_key compile
password_sensitive = refl

abbrev user : String → Value
user secret = dict (field "name" (string "ann") (field "password" (string secret) no_fields))

abbrev event : String → Fields
event secret = field "level" (string "error") (field "user" (user secret) no_fields)

users-Alike : Alike python scrubber 0 (user "one") (user "two")
users-Alike = Walk.Secrets.both_dicts (omega arith) (
    Walk.Secrets.open_field (Walk.Secrets.same_value (string "ann")) (
      Walk.Secrets.secret_field (string "one") (string "two") password_sensitive Walk.Secrets.ends))

scrub_node_hides_example :
    scrub_node python scrubber 0 (user "one") ≡ scrub_node python scrubber 0 (user "two")
scrub_node_hides_example = scrub_node_hides python scrubber 0 (user "one") (user "two") users-Alike

scrub_event_hides_example :
    lookup "user" (scrub_event python scrubber (event "one"))
    ≡ lookup "user" (scrub_event python scrubber (event "two"))
unfolding compile
scrub_event_hides_example =
    scrub_event_hides python scrubber "user" (event "one") (event "two") (user "one") (user "two")
      refl refl refl refl users-Alike
