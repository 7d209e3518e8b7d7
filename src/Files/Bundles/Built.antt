-- ===== src/Files/Bundles/Built.antt =====
-- The bundles of an upload: one per debug identifier, with a source map where any of its files has
-- one.
use Prim.Native.String.{String}
use text.Mathlib.TextEquality.{eq_iff}
use fork_glitchtip_glitchtip.Common.{
  ℕ, suc, ◌≤◌, ◌≡◌, inl, inr, Bool, true, false, ◌&&◌, ◌||◌, Option, none, some, List, [], ◌∷◌,
  ◌++◌, any, All, All-append, if◌then◌else◌, refl, sym, ap, ap₂, ◌∙◌, arith, Bool-cases,
}
use fork_glitchtip_glitchtip.Ingest.Scrub.Keys.{same_text}
use fork_glitchtip_glitchtip.Files.Bundles.{
  Artifact, Bundle, sourcemap_for, bundle_of, is_present, is_complete, has_id, put_bundle,
  place_bundle, place_files, build_bundles,
}

-- the bundles of a debug identifier
pub count_id : String → List Bundle → ℕ
count_id e [] = 0
count_id e (b ∷ bundles) =
    let rest = count_id e bundles in if has_id e b.debug_id then suc rest else rest

-- a complete one among them
pub has_complete : String → List Bundle → Bool
has_complete e bundles = any (λ b. has_id e b.debug_id && is_complete b) bundles

same_id : (d e : String) (o : Option String) → has_id d o ≡ true → has_id e o ≡ same_text d e
same_id d e none h = cc
same_id d e (some s) h = ap (λ t. same_text t e) ((eq_iff s d).0 h)

merge_first : (b x r : Bool) → (x || r) || b ≡ x || (r || b)
merge_first b true r = refl
merge_first b false r = refl

or_false : (x : Bool) → (x || false) ≡ x
or_false true = refl
or_false false = refl

put_complete :
    (d e : String) (b : Bundle) (bundles : List Bundle)
    → b.debug_id ≡ some d
    → has_complete e (put_bundle d b bundles)
      ≡ (has_complete e bundles || (same_text d e && is_complete b))
unfolding has_complete put_bundle
put_complete d e b [] is =
    ap (λ o. (has_id e o && is_complete b) || false) is ∙ or_false (same_text d e && is_complete b)
put_complete d e b (x ∷ bundles) is = elim (Bool-cases (has_id d x.debug_id)) [
  | inr away ↦ rw away (
      ap (λ r. (has_id e x.debug_id && is_complete x) || r) (put_complete d e b bundles is)
      ∙ sym (
          merge_first (same_text d e && is_complete b) (has_id e x.debug_id && is_complete x)
            (has_complete e bundles)))
  | inl here ↦
      let same_x : has_id e x.debug_id ≡ same_text d e = same_id d e x.debug_id here in
      let same_b : has_id e b.debug_id ≡ same_text d e = ap (has_id e) is in
      elim (Bool-cases (is_complete b)) [
        | inl full ↦
            rw (here, full, same_x, same_b, full)
              (one_full (same_text d e) (is_complete x) (has_complete e bundles))
        | inr half ↦
            rw (here, half, same_x)
              (one_half (same_text d e)
                ((same_text d e && is_complete x) || has_complete e bundles))
      ]
]
  where
    one_full : (t c r : Bool) → ((t && true) || r) ≡ (((t && c) || r) || (t && true))
    one_full true true r = refl
    one_full true false true = refl
    one_full true false false = refl
    one_full false c true = refl
    one_full false c false = refl

    one_half : (t r : Bool) → r ≡ (r || (t && false))
    one_half true true = refl
    one_half true false = refl
    one_half false true = refl
    one_half false false = refl

count_other :
    (d e : String) (b : Bundle) (bundles : List Bundle)
    → b.debug_id ≡ some d
    → same_text d e ≡ false
    → count_id e (put_bundle d b bundles) ≡ count_id e bundles
unfolding count_id put_bundle
count_other d e b [] is other =
    let away : has_id e b.debug_id ≡ false = ap (has_id e) is ∙ other in rw away refl
count_other d e b (x ∷ bundles) is other =
    let away : has_id e b.debug_id ≡ false = ap (has_id e) is ∙ other in
    elim (Bool-cases (has_id d x.debug_id)) [
      | inl here ↦
          let away_x : has_id e x.debug_id ≡ false = same_id d e x.debug_id here ∙ other in
          elim (Bool-cases (is_complete b)) [
            | inl full ↦ rw (here, full, away, away_x) refl
            | inr half ↦ rw (here, half, away_x) refl
          ]
      | inr gone ↦ rw (gone, count_other d e b bundles is other) refl
    ]

count_once :
    (d e : String) (b : Bundle) (bundles : List Bundle)
    → b.debug_id ≡ some d
    → count_id e bundles ≤ 1
    → count_id e (put_bundle d b bundles) ≤ 1
unfolding count_id put_bundle
count_once d e b [] is once = elim (Bool-cases (has_id e b.debug_id)) [
  | inl t ↦ rw t (omega arith)
  | inr t ↦ rw t (omega arith)
]
count_once d e b (x ∷ bundles) is once =
    let same_b : has_id e b.debug_id ≡ same_text d e = ap (has_id e) is in
    elim (Bool-cases (has_id d x.debug_id)) [
      | inl here ↦
          let same_x : has_id e x.debug_id ≡ same_text d e = same_id d e x.debug_id here in
          elim (Bool-cases (is_complete b)) [
            | inl full ↦ rw (here, full, same_b) (rw same_x at once)
            | inr half ↦ rw (here, half) once
          ]
      | inr gone ↦ elim (Bool-cases (has_id e x.debug_id)) [
        | inr away ↦ rw (gone, away) (count_once d e b bundles is (rw away at once))
        | inl there ↦
            let other : same_text d e ≡ false = differ (x.debug_id) gone there in
            rw (gone, there, count_other d e b bundles is other) (rw there at once)
      ]
    ]
  where
    differ : (o : Option String) → has_id d o ≡ false → has_id e o ≡ true → same_text d e ≡ false
    differ none gone there = cc
    differ (some s) gone there =
        let at : s ≡ e = (eq_iff s e).0 there in
        elim (Bool-cases (same_text d e)) [
          | inr f ↦ f
          | inl t ↦
              let eq : d ≡ e = (eq_iff d e).0 t in
              absurd (ground (arith, sym gone ∙ (eq_iff s d).1 (at ∙ sym eq)))
        ]

-- whether a file is one of a debug identifier that gets a source map
pub gets_sourcemap : List Artifact → String → Artifact → Bool
gets_sourcemap files e f = has_id e f.debug_id && is_present (sourcemap_for f.kind f files)

-- bundles without a debug identifier
abbrev IsPlain : Bundle → Type 0
IsPlain b = b.debug_id ≡ none

record IsPlaced (e : String) (complete : Bool) (by_id without_id : List Bundle) : Type 0 where
  once : count_id e by_id ≤ 1
  same : has_complete e by_id ≡ complete
  plain : All IsPlain without_id

plain_none :
    (e : String) (bs cs : List Bundle)
    → All IsPlain cs
    → (count_id e (bs ++ cs) ≡ count_id e bs) × (has_complete e (bs ++ cs) ≡ has_complete e bs)
unfolding count_id has_complete
plain_none e [] [] plain = (refl, refl)
plain_none e [] (c ∷ cs) (one, plain) =
    let away : has_id e c.debug_id ≡ false = ap (has_id e) one in
    let rest = plain_none e [] cs plain in (rw away rest.0, rw away rest.1)
plain_none e (b ∷ bs) cs plain =
    let rest = plain_none e bs cs plain in (rw rest.0 refl, rw rest.1 refl)

assoc_or : (a b c : Bool) → (a || b) || c ≡ a || (b || c)
assoc_or true b c = refl
assoc_or false b c = refl

place_files-IsPlaced :
    (release : Option ℕ) (files rest : List Artifact) (e : String) (complete : Bool)
    (by_id without_id : List Bundle)
    → IsPlaced e complete by_id without_id
    → IsPlaced e
        (complete || any (gets_sourcemap files e) rest)
        (place_files release files rest (by_id, without_id)).0
        (place_files release files rest (by_id, without_id)).1
unfolding place_files gets_sourcemap bundle_of
place_files-IsPlaced release files [] e complete by_id without_id placed =
    let same : (complete || false) ≡ complete = or_false complete in rw same placed
place_files-IsPlaced release files (file ∷ rest) e complete by_id without_id placed =
    rw (← assoc_or complete (gets_sourcemap files e file) (any (gets_sourcemap files e) rest)) (
      next file.debug_id refl (λ more by_id' without_id' p.
        place_files-IsPlaced release files rest e more by_id' without_id' p))
  where
    b : Bundle
    b = bundle_of release files file

    next :
        (o : Option String)
        → file.debug_id ≡ o
        → ((more : Bool) (by_id' without_id' : List Bundle)
            → IsPlaced e more by_id' without_id'
            → IsPlaced e
                (more || any (gets_sourcemap files e) rest)
                (place_files release files rest (by_id', without_id')).0
                (place_files release files rest (by_id', without_id')).1)
        → IsPlaced e
            ((complete || gets_sourcemap files e file) || any (gets_sourcemap files e) rest)
            (place_files release files rest (place_bundle o b (by_id, without_id))).0
            (place_files release files rest (place_bundle o b (by_id, without_id))).1
    next none is later =
        later (complete || gets_sourcemap files e file) by_id (without_id ++ b ∷ []) (record {
          once = placed.once;
          same =
              placed.same
              ∙ sym (
                  ap
                    (λ o.
                      complete || (has_id e o && is_present (sourcemap_for file.kind file files)))
                    is
                  ∙ or_false complete);
          plain = All-append IsPlain without_id (b ∷ []) placed.plain (is, tt);
        })
    next (some d) is later =
        later (complete || gets_sourcemap files e file) (put_bundle d b by_id) without_id (record {
          once = count_once d e b by_id is placed.once;
          same =
              put_complete d e b by_id is
              ∙ ap₂ {C = Bool} (λ x o. x || (has_id e o && is_complete b)) placed.same (sym is);
          plain = placed.plain;
        })

-- Of the bundles that an upload is turned into, at most one has a given debug identifier; and
-- there is one with a source map exactly if a source map belongs to any of the upload's files with
-- that debug identifier.
pub build_bundles-once :
    (release : Option ℕ) (files : List Artifact) (e : String)
    → (count_id e (build_bundles release files) ≤ 1)
      × (has_complete e (build_bundles release files) ≡ any (gets_sourcemap files e) files)
unfolding build_bundles count_id has_complete
build_bundles-once release files e =
    let start : IsPlaced e false [] [] = record { once = omega arith; same = refl; plain = tt } in
    let all = place_files-IsPlaced release files files e false [] [] start in
    let placed = place_files release files files ([], []) in
    let (counts, completes) = plain_none e placed.0 placed.1 all.plain in
    (omega (arith, counts, all.once), completes ∙ all.same)
