-- ===== src/Ingest/Scrub/Keys/FastPath.antt =====
-- The fast path of `_is_sensitive_key` for plain lower-case keys.
use Prim.Native.Char.{Char}
use Prim.Native.String
use Prim.Native.String.{String}
use text.Mathlib.TextEquality.{eq_iff}
use text.Mathlib.TextLemmas
use fork_glitchtip_glitchtip.Common.{
  Bool, true, false, ◌&&◌, ◌||◌, ◌≡◌, [], ◌∷◌, if◌then◌else◌, refl, sym, ap, subst, ◌∙◌, Bool-cases,
  inl, inr,
}
use fork_glitchtip_glitchtip.Ingest.Scrub.Keys.{
  Scrubber, is_empty, same_text, member, is_upper, is_lower_or_digit, starts_lower, boundary,
  is_separator, strip, normalize_key, pieces, split_key, token_match, is_sensitive_key,
}

abbrev pub AllChars : (Char → Type 0) → String → Type 0
AllChars P String.[] = Unit
AllChars P (String.◌∷◌ c s) = P c × AllChars P s

-- What the code relies on of `str.lower`.
pub record LowerLaws (lower : String → String) (is_space : Char → Bool) : Type 0 where
  -- its results hold none of the letters A to Z
  pub no_upper : (s : String) → AllChars (λ c. is_upper c ≡ false) (lower s)
  -- a text without separators keeps having none
  pub no_separator :
      (s : String)
      → AllChars (λ c. is_separator is_space c ≡ false) s
      → AllChars (λ c. is_separator is_space c ≡ false) (lower s)
  -- a second application changes nothing
  pub lower_again : (s : String) → lower (lower s) ≡ lower s

prepend : (c : Char) (s : String) → String.◌++◌ (String.◌∷◌ c "") s ≡ String.◌∷◌ c s
prepend c s = TextLemmas.cons-append c "" s ∙ ap (String.◌∷◌ c) (TextLemmas.nil-append s)

or_false : (b : Bool) → (b || false) ≡ b
or_false true = refl
or_false false = refl

one_token :
    (sc : Scrubber) (key : String)
    → member key sc.safelist ≡ false
    → token_match sc (key ∷ []) ≡ member key sc.key_tokens
one_token sc key unsafe = rw unsafe (or_false (member key sc.key_tokens))

module _ (lower : String → String) (is_space : Char → Bool) where
  abbrev Plain : Char → Type 0
  Plain c = (is_upper c ≡ false) × (is_separator is_space c ≡ false)

  strip_plain : (s : String) → AllChars (λ c. is_separator is_space c ≡ false) (strip is_space s)
  strip_plain String.[] = tt
  strip_plain (String.◌∷◌ c s) = elim (Bool-cases (is_separator is_space c)) [
    | inl sep ↦ rw sep (strip_plain s)
    | inr other ↦ rw other (other, strip_plain s)
  ]

  shut : (a b c : Bool) → ((a && false) || (b && false && c)) ≡ false
  shut true true c = refl
  shut true false c = refl
  shut false true c = refl
  shut false false c = refl

  no_boundary :
      (c : Char) (s : String) → AllChars (λ d. is_upper d ≡ false) s → boundary c s ≡ false
  no_boundary c String.[] h = refl
  no_boundary c (String.◌∷◌ d s) (low, h) =
      rw low (shut (is_lower_or_digit c) (is_upper c) (starts_lower s))

  pieces_plain :
      (piece s : String)
      → AllChars (λ c. is_upper c ≡ false) s
      → AllChars (λ c. is_separator is_space c ≡ false) s
      → pieces is_space piece s ≡ String.◌++◌ piece s ∷ []
  pieces_plain piece String.[] u p = rw TextLemmas.append-nil refl
  pieces_plain piece (String.◌∷◌ c s) (low, u) (kept, p) =
      rw (kept, no_boundary c s u)
        (pieces_plain (String.◌++◌ piece (String.◌∷◌ c "")) s u p
          ∙ ap (λ (t : String). t ∷ []) (TextLemmas.append_assoc piece (String.◌∷◌ c "") s)
          ∙ ap (λ (t : String). String.◌++◌ piece t ∷ []) (prepend c s))

  -- The default matcher without its fast path.
  abbrev pub is_sensitive_by_tokens : Scrubber → String → Bool
  is_sensitive_by_tokens sc key =
      let nkey = normalize_key lower is_space key in
      if is_empty nkey
      then false
      else if member nkey sc.safelist
      then false
      else if member nkey sc.whole_keys
      then true
      else token_match sc (split_key lower is_space key)

  split_plain :
      (laws : LowerLaws lower is_space) (key : String)
      → is_empty (normalize_key lower is_space key) ≡ false
      → key ≡ normalize_key lower is_space key
      → split_key lower is_space key ≡ key ∷ []
  unfolding split_key normalize_key
  split_plain laws key full plain =
      let upper =
        subst (AllChars (λ c. is_upper c ≡ false)) (sym plain)
          (laws.no_upper (strip is_space key)) in
      let seps =
        subst (AllChars (λ c. is_separator is_space c ≡ false)) (sym plain)
          (laws.no_separator (strip is_space key) (strip_plain key)) in
      let whole =
        pieces_plain "" key upper seps ∙ ap (λ (t : String). t ∷ []) (TextLemmas.nil-append key) in
      let filled = ap is_empty plain ∙ full in
      let lowered = ap lower plain ∙ laws.lower_again (strip is_space key) ∙ sym plain in
      rw (whole, filled, lowered) refl

  -- Where the aggressive matcher is off, the fast path makes no difference: a key is sensitive
  -- exactly if the safe keys do not hold its normalized form, and the whole keys hold it or no token
  -- of the key is safe and one is sensitive.
  pub fast_path_agrees :
      (laws : LowerLaws lower is_space) (sc : Scrubber) (key : String)
      → sc.config.aggressive_key_match ≡ false
      → is_sensitive_key lower is_space sc key ≡ is_sensitive_by_tokens sc key
  unfolding is_sensitive_key
  fast_path_agrees laws sc key calm =
      let nkey = normalize_key lower is_space key in
      elim (Bool-cases (is_empty nkey)) [
        | inl empty ↦ rw empty refl
        | inr full ↦ elim (Bool-cases (member nkey sc.safelist)) [
          | inl safe ↦ rw (full, calm, safe) refl
          | inr unsafe ↦ elim (Bool-cases (member nkey sc.whole_keys)) [
            | inl whole ↦ rw (full, calm, unsafe, whole) refl
            | inr parts ↦ elim (Bool-cases (same_text key nkey)) [
              | inr mixed ↦ rw (full, calm, unsafe, parts, mixed) refl
              | inl plain ↦
                  rw (full, calm, unsafe, parts, plain)
                    (let same = (eq_iff key nkey).0 plain in
                      sym (
                        ap (token_match sc) (split_plain laws key full same)
                        ∙ one_token sc key (ap (λ (t : String). member t sc.safelist) same ∙ unsafe)
                        ∙ ap (λ (t : String). member t sc.key_tokens) same))
            ]
          ]
        ]
      ]
