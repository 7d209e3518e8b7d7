-- ===== src/Logs/Span.antt =====
-- apps/logs/process_logs.py, `parse_span_id`, and apps/logs/schema.py, `resolve_span_id`. A text
-- is the list of its code points; `int(text, 16)`, which also takes signs, blanks and underscores,
-- is an argument.
pub mod RoundTrip
use fork_glitchtip_glitchtip.Common.{
  ℕ, zero, suc, ◌+◌, ◌-◌, ◌*◌, ◌/◌, ◌%◌, ◌^◌, Bool, true, false, ◌&&◌, Option, none, some, List, [],
  ◌∷◌, ◌++◌, ltb, leb, ◌==◌, if◌then◌else◌,
}
use fork_glitchtip_glitchtip.Partitions.Uuid7.{ℤ, pos, negsuc}

-- `replace("-", "")`
pub without_dashes : List ℕ → List ℕ
without_dashes [] = []
without_dashes (c ∷ text) = let rest = without_dashes text in if c == 45 then rest else c ∷ rest

-- `replace("0x", "")`, from the left
pub without_prefix : List ℕ → List ℕ
without_prefix [] = []
without_prefix (c ∷ []) = c ∷ []
without_prefix (c ∷ d ∷ text) =
    let shorter = without_prefix text in
    let rest = without_prefix (d ∷ text) in if (c == 48) && (d == 120) then shorter else c ∷ rest

-- an unsigned value with the high bit set becomes its two's complement
pub signed : ℤ → ℤ
signed (negsuc n) = negsuc n
signed (pos n) =
    if leb (2 ^ 63) n
    then if leb (2 ^ 64) n then pos (n - 2 ^ 64) else negsuc (2 ^ 64 - 1 - n)
    else pos n

abbrev pub signed_value : Option ℤ → Option ℤ
signed_value none = none
signed_value (some value) = some (signed value)

-- `parse_span_id`, with Python's `int(_, 16)`
unfoldable pub parse_span_id : (List ℕ → Option ℤ) → Option (List ℕ) → Option ℤ
parse_span_id int16 none = none
parse_span_id int16 (some []) = none
parse_span_id int16 (some (c ∷ text)) =
    signed_value (int16 (without_prefix (without_dashes (c ∷ text))))

-- the code point of a digit
unfoldable pub hex_char : ℕ → ℕ
hex_char d = if ltb d 10 then 48 + d else 87 + d

-- `count` digits of a value, and the ones before them where it has more
pub hex_digits : ℕ → ℕ → List ℕ
hex_digits zero value = []
hex_digits (suc count) value = hex_digits count (value / 16) ++ hex_char (value % 16) ∷ []

-- `f"{value:016x}"` of a value below 2 ** 64
abbrev pub unsigned : ℤ → ℕ
unsigned (pos n) = n
unsigned (negsuc n) = 2 ^ 64 - 1 - n

-- `resolve_span_id`, for the values of a BIGINT
pub resolve_span_id : Option ℤ → Option (List ℕ)
resolve_span_id none = none
resolve_span_id (some value) = some (hex_digits 16 (unsigned value))
