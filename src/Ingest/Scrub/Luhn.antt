-- ===== src/Ingest/Scrub/Luhn.antt =====
-- apps/event_ingest/pii_scrubber.py, `_luhn_valid`. The characters are digits, so that
-- `ord(ch) - 48` is not negative.
pub mod CheckDigit
use Prim.Native.Char.{Char, code}
use Prim.Native.String
use Prim.Native.String.{String}
use fork_glitchtip_glitchtip.Common.{
  ℕ, zero, suc, ◌+◌, ◌-◌, ◌*◌, ◌%◌, Bool, true, false, List, [], ◌∷◌, length, ltb, ◌==◌,
  if◌then◌else◌,
}

pub digits_of : String → List ℕ
digits_of String.[] = []
digits_of (String.◌∷◌ c s) = (code c - 48) ∷ digits_of s

-- what a digit adds to the total, doubled or not
unfoldable pub weigh : Bool → ℕ → ℕ
weigh true d = let twice = d * 2 in if ltb 9 twice then twice - 9 else twice
weigh false d = d

-- the loop, from the position `i`
unfoldable pub luhn_loop : ℕ → ℕ → ℕ → List ℕ → ℕ
luhn_loop parity i total [] = total
luhn_loop parity i total (d ∷ ds) = luhn_loop parity (suc i) (total + weigh (i % 2 == parity) d) ds

unfoldable pub checksum_ok : List ℕ → Bool
checksum_ok ds = luhn_loop (length ds % 2) 0 0 ds % 10 == 0

pub luhn_valid : String → Bool
luhn_valid digits = checksum_ok (digits_of digits)
