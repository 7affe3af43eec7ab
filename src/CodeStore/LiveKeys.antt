-- ===== src/CodeStore/LiveKeys.antt =====
-- symbols.go: liveKey and parseLiveKey, with the functions of strconv and strings that they call.
pub mod RoundTrip
use ragrep.Common.{
  ℕ, suc, zero, ◌+◌, ◌-◌, ◌*◌, ◌/◌, ◌%◌, ◌^◌, Text, text_eq, codes, Bool, true, false, not, ◌&&◌,
  ◌||◌, ◌==◌, ltb, leb, List, [], ◌∷◌, ◌++◌, is_empty, cons_first, Option, none, some,
  if◌then◌else◌,
}

-- The decimal digits of a number, put before the text; each round takes one digit of at most `fuel`.
unfoldable pub digits_onto : ℕ → ℕ → Text → Text
digits_onto zero n s = s
digits_onto (suc fuel) n s =
    let d = b'0' + n % 10 in
    let rest = digits_onto fuel (n / 10) (d ∷ s) in if ltb n 10 then d ∷ s else rest

-- `strconv.FormatUint(n, 10)`; a number has fewer digits than its successor.
unfoldable pub format_uint : ℕ → Text
unfolding digits_onto
format_uint n = digits_onto (suc n) n []

-- The value of decimal digits after the value of those before them.
unfoldable pub digits_value : ℕ → Text → Option ℕ
digits_value v [] = some v
digits_value v (c ∷ s) =
    let rest = digits_value (v * 10 + (c - b'0')) s in
    if leb b'0' c && leb c b'9' then rest else none

abbrev pub fits_64 : Option ℕ → Option ℕ
fits_64 none = none
fits_64 (some n) = if ltb n (2 ^ 64) then some n else none

-- `strconv.ParseUint(s, 10, 64)`, with `none` for an error.
unfoldable pub parse_uint : Text → Option ℕ
unfolding digits_value
parse_uint s = if is_empty s then none else fits_64 (digits_value 0 s)

-- `strings.SplitN(s, sep, k + 1)` at a separator of one code point.
unfoldable pub split_n : ℕ → ℕ → Text → List Text
unfolding cons_first
split_n c zero s = s ∷ []
split_n c (suc k) [] = [] ∷ []
split_n c (suc k) (d ∷ s) =
    let cut = split_n c k s in
    let more = split_n c (suc k) s in if d == c then [] ∷ cut else cons_first d more

unfoldable pub live_key : ℕ → Text → Text → Text
unfolding format_uint
live_key generation hash file_path =
    codes "live:" ++ (format_uint generation ++ b':' ∷ (hash ++ b':' ∷ file_path))

unfoldable pub live_parts : List Text → Option (ℕ × Text × Text)
unfolding parse_uint
live_parts (live ∷ generation ∷ hash ∷ file_path ∷ []) =
    if not (text_eq live (codes "live")) || is_empty hash || is_empty file_path
    then none
    else elim (parse_uint generation) [ none ↦ none | some n ↦ some (n, hash, file_path) ]
live_parts _ = none

unfoldable pub parse_live_key : Text → Option (ℕ × Text × Text)
unfolding split_n live_parts
parse_live_key key = live_parts (split_n b':' 3 key)
