-- ===== src/Ingest/Auth/Codec.antt =====
-- The cached form of a pair of throttle rates.
use fork_glitchtip_glitchtip.Common.{ℕ, ◌≡◌, false, some, List, [], ◌∷◌, ◌++◌, ◌==◌, All, refl}
use fork_glitchtip_glitchtip.Ingest.Auth.{
  Numbers, rates, colon, cut, both, serialize_throttle, deserialize_throttle,
}

cut-append : (s t : List ℕ) → All (λ c. (c == colon) ≡ false) s → cut (s ++ colon ∷ t) ≡ (s, some t)
unfolding cut
cut-append [] t plain = refl
cut-append (c ∷ s) t (other, plain) = rw (other, cut-append s t plain) refl

-- Reading the cached form of two throttle rates gives the two rates back.
pub deserialize-serialize_throttle :
    (py : Numbers) (org project : ℕ)
    → deserialize_throttle py (serialize_throttle py org project) ≡ rates org project
unfolding serialize_throttle deserialize_throttle both
deserialize-serialize_throttle py org project =
    rw
      (
        cut-append (py.show org) (py.show project) (py.show_plain org),
        py.int-show org,
        py.int-show project,
      )
      refl
