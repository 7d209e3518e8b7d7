-- ===== src/Logs/Span/RoundTrip.antt =====
-- Span identifiers from their text to the database and back.
use native.Mathlib.Nat.{mul-le-mul_right, mul_assoc, pow-le-pow_right}
use fork_glitchtip_glitchtip.Common.{
  ℕ, zero, suc, ◌+◌, ◌-◌, ◌*◌, ◌/◌, ◌%◌, ◌^◌, ◌<◌, ◌≤◌, ◌≡◌, inl, inr, true, false, Option, some,
  List, [], ◌∷◌, ◌++◌, All, All-append, length, map, leb, ◌==◌, lt→leb_false, le→leb, length-append,
  refl, sym, ap, ◌∙◌, arith, Bool-cases,
}
use fork_glitchtip_glitchtip.Partitions.Uuid7.{ℤ, pos, negsuc}
use fork_glitchtip_glitchtip.Logs.Span.{
  without_dashes, without_prefix, signed, parse_span_id, hex_char, hex_digits, unsigned,
  resolve_span_id,
}

-- the value of digits, the highest first, behind a value
unfoldable pub hex_value : ℕ → List ℕ → ℕ
hex_value high [] = high
hex_value high (d ∷ digits) = hex_value (high * 16 + d) digits

-- Python's documented reading of digits
abbrev pub ReadsDigits : (List ℕ → Option ℤ) → Type 0
ReadsDigits int16 =
    (d : ℕ) (digits : List ℕ)
    → All (λ d. d < 16) (d ∷ digits)
    → int16 (map hex_char (d ∷ digits)) ≡ some (pos (hex_value 0 (d ∷ digits)))

-- the values of a BIGINT
abbrev pub IsBigint : ℤ → Type 0
IsBigint (pos n) = n < 2 ^ 63
IsBigint (negsuc n) = n < 2 ^ 63

plain_char : (d : ℕ) → d < 16 → ((hex_char d == 45) ≡ false) × ((hex_char d == 120) ≡ false)
unfolding hex_char
plain_char d small = (ground arith, ground arith)

dashes_plain :
    (digits : List ℕ)
    → All (λ d. d < 16) digits
    → without_dashes (map hex_char digits) ≡ map hex_char digits
unfolding without_dashes
dashes_plain [] small = refl
dashes_plain (d ∷ digits) (one, small) =
    let (dash, x) = plain_char d one in rw (dash, dashes_plain digits small) refl

prefix_plain :
    (digits : List ℕ)
    → All (λ d. d < 16) digits
    → without_prefix (map hex_char digits) ≡ map hex_char digits
unfolding without_prefix
prefix_plain [] small = refl
prefix_plain (d ∷ []) small = refl
prefix_plain (d ∷ e ∷ digits) (one, (two, small)) =
    let (dash, x) = plain_char e two in
    elim (Bool-cases (hex_char d == 48)) [
      | inl at ↦ rw (at, x, prefix_plain (e ∷ digits) (two, small)) refl
      | inr at ↦ rw (at, prefix_plain (e ∷ digits) (two, small)) refl
    ]

parse_digits :
    (int16 : List ℕ → Option ℤ) (d : ℕ) (digits : List ℕ)
    → ReadsDigits int16
    → All (λ d. d < 16) (d ∷ digits)
    → parse_span_id int16 (some (map hex_char (d ∷ digits)))
      ≡ some (signed (pos (hex_value 0 (d ∷ digits))))
unfolding parse_span_id
parse_digits int16 d digits reads small =
    rw (dashes_plain (d ∷ digits) small, prefix_plain (d ∷ digits) small, reads d digits small) refl

-- `count` digits of a value
digits_of : ℕ → ℕ → List ℕ
digits_of zero value = []
digits_of (suc count) value = digits_of count (value / 16) ++ value % 16 ∷ []

map-append : (f : ℕ → ℕ) (xs ys : List ℕ) → map f (xs ++ ys) ≡ map f xs ++ map f ys
map-append f [] ys = refl
map-append f (x ∷ xs) ys = ap (λ zs. f x ∷ zs) (map-append f xs ys)

hex_digits-map : (count value : ℕ) → hex_digits count value ≡ map hex_char (digits_of count value)
unfolding hex_digits digits_of
hex_digits-map zero value = refl
hex_digits-map (suc count) value =
    ap (λ xs. xs ++ hex_char (value % 16) ∷ []) (hex_digits-map count (value / 16))
    ∙ sym (map-append hex_char (digits_of count (value / 16)) (value % 16 ∷ []))

digits_small : (count value : ℕ) → All (λ d. d < 16) (digits_of count value)
unfolding digits_of
digits_small zero value = tt
digits_small (suc count) value =
    All-append (λ d. d < 16) (digits_of count (value / 16)) (value % 16 ∷ [])
      (digits_small count (value / 16)) (omega arith, tt)

hex_value-append :
    (high d : ℕ) (xs : List ℕ) → hex_value high (xs ++ d ∷ []) ≡ hex_value high xs * 16 + d
unfolding hex_value
hex_value-append high d [] = refl
hex_value-append high d (x ∷ xs) = hex_value-append (high * 16 + x) d xs

hex_value-digits :
    (count value : ℕ) → value < 16 ^ count → hex_value 0 (digits_of count value) ≡ value
unfolding hex_value digits_of
hex_value-digits zero value small = omega arith
hex_value-digits (suc count) value small =
    let power : 16 ^ suc count ≡ 16 * 16 ^ count = omega arith in
    let rest = hex_value-digits count (value / 16) (omega (arith, power)) in
    hex_value-append 0 (value % 16) (digits_of count (value / 16)) ∙ omega (arith, rest)

parse_list :
    (int16 : List ℕ → Option ℤ) (digits : List ℕ)
    → ReadsDigits int16
    → 0 < length digits
    → All (λ d. d < 16) digits
    → parse_span_id int16 (some (map hex_char digits)) ≡ some (signed (pos (hex_value 0 digits)))
parse_list int16 [] reads some_digit small = absurd (omega arith)
parse_list int16 (d ∷ digits) reads some_digit small = parse_digits int16 d digits reads small

length-digits : (count value : ℕ) → 0 < length (digits_of (suc count) value)
unfolding digits_of
length-digits count value =
    rw (length-append (digits_of count (value / 16)) (value % 16 ∷ [])) (omega arith)

hex_value-bounded :
    (high : ℕ) (digits : List ℕ)
    → All (λ d. d < 16) digits
    → suc (hex_value high digits) ≤ suc high * 16 ^ length digits
unfolding hex_value
hex_value-bounded high [] small = omega arith
hex_value-bounded high (d ∷ digits) (one, small) =
    let power : 16 ^ suc (length digits) ≡ 16 * 16 ^ length digits = omega arith in
    let more : suc (high * 16 + d) * 16 ^ length digits ≤ suc high * 16 * 16 ^ length digits =
      mul-le-mul_right (16 ^ length digits) (omega arith) in
    let rest = hex_value-bounded (high * 16 + d) digits small in
    let group = mul_assoc (suc high) 16 (16 ^ length digits) in
    rw power (omega (arith, rest, more, group))

signed-unsigned : (value : ℤ) → IsBigint value → signed (pos (unsigned value)) ≡ value
unfolding signed
signed-unsigned (pos n) small = rw (lt→leb_false (2 ^ 63) n small) refl
signed-unsigned (negsuc n) small =
    let high : leb (2 ^ 63) (2 ^ 64 - 1 - n) ≡ true =
      le→leb (2 ^ 63) (2 ^ 64 - 1 - n) (omega arith) in
    let low : leb (2 ^ 64) (2 ^ 64 - 1 - n) ≡ false =
      lt→leb_false (2 ^ 64) (2 ^ 64 - 1 - n) (omega arith) in
    let back : 2 ^ 64 - 1 - (2 ^ 64 - 1 - n) ≡ n = omega arith in rw (high, low) (ap negsuc back)

signed-IsBigint : (n : ℕ) → n < 2 ^ 64 → IsBigint (signed (pos n))
unfolding signed
signed-IsBigint n small = elim (Bool-cases (leb (2 ^ 63) n)) [
  | inl e ↦ rw (e, lt→leb_false (2 ^ 64) n small) (ground (arith, e, small))
  | inr e ↦ rw e (ground (arith, e))
]

-- Where `int(_, 16)` reads digits as they are meant: every value of a BIGINT, shown as a span
-- identifier and parsed again, is the same value.
pub parse_span_id-resolve_span_id :
    (int16 : List ℕ → Option ℤ) (value : ℤ)
    → ReadsDigits int16
    → IsBigint value
    → parse_span_id int16 (resolve_span_id (some value)) ≡ some value
unfolding resolve_span_id
parse_span_id-resolve_span_id int16 value reads big =
    let digits = digits_of 16 (unsigned value) in
    let small : unsigned value < 16 ^ 16 = unsigned_small value big in
    rw (hex_digits-map 16 (unsigned value)) (
      parse_list int16 digits reads (length-digits 15 (unsigned value))
        (digits_small 16 (unsigned value))
      ∙ rw (hex_value-digits 16 (unsigned value) small) (ap some (signed-unsigned value big)))
  where
    unsigned_small : (value : ℤ) → IsBigint value → unsigned value < 16 ^ 16
    unsigned_small (pos n) small = omega arith
    unsigned_small (negsuc n) small = omega arith

-- Where `int(_, 16)` reads digits as they are meant: a text of 1 to 16 hexadecimal digits is
-- parsed to a value that fits in a BIGINT.
pub parse_span_id-IsBigint :
    (int16 : List ℕ → Option ℤ) (digits : List ℕ)
    → ReadsDigits int16
    → 0 < length digits
    → length digits ≤ 16
    → All (λ d. d < 16) digits
    → (value : ℤ) × (parse_span_id int16 (some (map hex_char digits)) ≡ some value) × IsBigint value
parse_span_id-IsBigint int16 digits reads some_digit short small =
    let bound = hex_value-bounded 0 digits small in
    let power : 16 ^ length digits ≤ 16 ^ 16 = pow-le-pow_right (omega arith) short in
    (
      signed (pos (hex_value 0 digits)),
      parse_list int16 digits reads some_digit small,
      signed-IsBigint (hex_value 0 digits) (omega (arith, bound, power)),
    )
