-- ===== src/Ingest/Auth/Samples.antt =====
-- A project, its keys, a server, and the theorems about the DSN check at them.
use fork_glitchtip_glitchtip.Common.{
  ℕ, zero, suc, ◌≡◌, true, false, ◌&&◌, Option, none, some, List, [], ◌∷◌, ◌==◌, if◌then◌else◌, All,
  refl, ap, arith,
}
use fork_glitchtip_glitchtip.Ingest.Auth.{
  Numbers, colon, is_accepting_events, Draws, Project, throttled, Server, is_blocked, get_project,
}
use fork_glitchtip_glitchtip.Common.{length}
use fork_glitchtip_glitchtip.Ingest.Auth.Flood.{blocked_project_again}
use fork_glitchtip_glitchtip.Ingest.Auth.Verdict.{wrong_key_isolated}

-- numbers written as that many ones
abbrev ones : ℕ → List ℕ
ones zero = []
ones (suc n) = 49 ∷ ones n

length-ones : (n : ℕ) → length (ones n) ≡ n
length-ones zero = refl
length-ones (suc n) = ap suc (length-ones n)

ones_plain : (n : ℕ) → All (λ c. (c == colon) ≡ false) (ones n)
ones_plain zero = tt
ones_plain (suc n) = (refl, ones_plain n)

abbrev numbers : Numbers
numbers = record {
  show = ones;
  int = λ s. some (length s);
  int-show = λ n. ap some (length-ones n);
  show_plain = ones_plain;
}

abbrev retry : ℕ → ℕ
retry rate = rate

abbrev over_quota : Project
over_quota = record {
  organization_id = 1;
  is_accepting_events = true;
  org_throttle = 100;
  project_throttle = 0;
}

abbrev half : Project
half = record over_quota { org_throttle = 50 }

abbrev draws : Draws
draws = record { cached_org = 70; cached_project = 70; org = 70; project = 70; check = false }

abbrev server : Server
server = record {
  block = λ id. none;
  dsn_block = λ id key. none;
  otlp_block = λ key. none;
  lookups = 0;
  checks = [];
}

-- project 3 has the key 7
abbrev rows : Project → ℕ → ℕ → Option Project
rows p id key = if (id == 3) && (key == 7) then some p else none

blocked_project_again_example :
    let s' = (get_project numbers retry (rows over_quota) 3 7 draws server).1 in
    ((get_project numbers retry (rows over_quota) 3 7 draws server).0 ≡ throttled 600)
    × ((get_project numbers retry (rows over_quota) 3 7 draws s').1.lookups ≡ suc s'.lookups)
unfolding is_blocked
blocked_project_again_example =
    blocked_project_again numbers retry (rows over_quota) 3 7 over_quota draws draws server refl
      refl refl refl

wrong_key_isolated_example :
    let s' = (get_project numbers retry (rows half) 3 8 draws server).1 in
    (get_project numbers retry (rows half) 3 7 draws s').0
    ≡ (get_project numbers retry (rows half) 3 7 draws server).0
wrong_key_isolated_example =
    wrong_key_isolated numbers retry (rows half) 3 8 7 draws draws server refl (omega arith)
