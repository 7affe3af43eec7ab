-- ===== src/CodeStore/LiveKeys/RoundTrip.antt =====
-- symbols.go: liveKey and parseLiveKey, one after the other.
use ragrep.Common.{
  ℕ, suc, zero, ◌+◌, ◌*◌, ◌/◌, ◌%◌, ◌^◌, ◌≡◌, ◌≢◌, refl, ap, ◌∙◌, ◌<◌, ◌≤◌, Text, text_eq, codes,
  Bool-cases, true, false, ltb, leb, [], ◌∷◌, ◌++◌, is_empty, cons_first, Option, none, some, All,
  ◌⊎◌, inl, inr, arith, ltb→lt,
}
use ragrep.CodeStore.LiveKeys.{
  digits_onto, format_uint, digits_value, parse_uint, split_n, live_key, live_parts, parse_live_key,
}

leb-true : (a b : ℕ) → a ≤ b → leb a b ≡ true
leb-true a b h = ground arith

digit_value :
    (v d : ℕ) (s : Text) → d ≤ 9 → digits_value v ((b'0' + d) ∷ s) ≡ digits_value (v * 10 + d) s
unfolding digits_value
digit_value v d s h =
    rw (leb-true b'0' (b'0' + d) (omega arith), leb-true (b'0' + d) b'9' (omega arith))
      (ap (λ w. digits_value (v * 10 + w) s) (omega arith))

pub digits_value-digits_onto :
    (fuel n : ℕ) (s : Text) → n < fuel → digits_value 0 (digits_onto fuel n s) ≡ digits_value n s
unfolding digits_onto digits_value
digits_value-digits_onto zero n s h = ground arith
digits_value-digits_onto (suc fuel) n s h = elim (Bool-cases (ltb n 10)) [
  | inl e ↦ rw (e) (
      digit_value 0 (n % 10) s (omega arith)
      ∙ ap (λ v. digits_value v s) (omega (arith, ltb→lt n 10 e)))
  | inr e ↦ rw (e) (
      digits_value-digits_onto fuel (n / 10) ((b'0' + n % 10) ∷ s) (ground arith)
      ∙ (digit_value (n / 10) (n % 10) s (omega arith) ∙ ap (λ v. digits_value v s) (omega arith)))
]

abbrev pub IsDigit : ℕ → Type 0
IsDigit c = (b'0' ≤ c) × (c ≤ b'9')

pub digits_onto-IsDigit :
    (fuel n : ℕ) (s : Text) → All IsDigit s → All IsDigit (digits_onto fuel n s)
unfolding digits_onto
digits_onto-IsDigit zero n s h = h
digits_onto-IsDigit (suc fuel) n s h = elim (Bool-cases (ltb n 10)) [
  | inl e ↦ rw (e) ((omega arith, omega arith), h)
  | inr e ↦
      rw (e)
        (digits_onto-IsDigit fuel (n / 10) ((b'0' + n % 10) ∷ s) ((omega arith, omega arith), h))
]

pub split_n-cut :
    (c k : ℕ) (front s : Text)
    → All (λ d. d ≢ c) front
    → split_n c (suc k) (front ++ c ∷ s) ≡ front ∷ split_n c k s
unfolding split_n cons_first
split_n-cut c k [] s h = ground arith
split_n-cut c k (d ∷ front) s h = ground (arith, split_n-cut c k front s h.1)

pub digits_onto-All :
    (c : ℕ) (s : Text) → (c < b'0') ⊎ (b'9' < c) → All IsDigit s → All (λ d. d ≢ c) s
digits_onto-All c [] away h = tt
digits_onto-All c (d ∷ s) away h = (ground arith, digits_onto-All c s away h.1)

is_empty-digits_onto :
    (fuel n : ℕ) (s : Text) → is_empty s ≡ false → is_empty (digits_onto fuel n s) ≡ false
unfolding digits_onto
is_empty-digits_onto zero n s h = h
is_empty-digits_onto (suc fuel) n s h = elim (Bool-cases (ltb n 10)) [
  | inl e ↦ rw (e) refl
  | inr e ↦ rw (e) (is_empty-digits_onto fuel (n / 10) ((b'0' + n % 10) ∷ s) refl)
]

-- Parsing the decimal text of a 64-bit number gives the number.
pub parse_uint-format_uint : (n : ℕ) → n < 2 ^ 64 → parse_uint (format_uint n) ≡ some n
unfolding parse_uint format_uint digits_value digits_onto
parse_uint-format_uint n h =
    rw (filled n, digits_value-digits_onto (suc n) n [] (omega arith)) (ground arith)
  where
    filled : (n : ℕ) → is_empty (format_uint n) ≡ false
    filled n = elim (Bool-cases (ltb n 10)) [
      | inl e ↦ rw (e) refl
      | inr e ↦ rw (e) (is_empty-digits_onto n (n / 10) ((b'0' + n % 10) ∷ []) refl)
    ]

live_parts_lem :
    (generation : ℕ) (s hash file_path : Text)
    → parse_uint s ≡ some generation
    → is_empty hash ≡ false
    → is_empty file_path ≡ false
    → live_parts (codes "live" ∷ s ∷ hash ∷ file_path ∷ []) ≡ some (generation, hash, file_path)
unfolding live_parts text_eq
live_parts_lem generation s hash file_path value filled there =
    rw (filled, there) (rest (parse_uint s) value)
  where
    rest :
        (o : Option ℕ)
        → o ≡ some generation
        → ◌≡◌ {A = Option (ℕ × Text × Text)}
            (elim o [ none ↦ none | some n ↦ some (n, hash, file_path) ])
            (some (generation, hash, file_path))
    rest none e = cc
    rest (some n) e = cc

-- A live key of a 64-bit generation, a hash that is not empty and has no `:`, and a path that is
-- not empty gives back the three.
pub parse_live_key-live_key :
    (generation : ℕ) (hash file_path : Text)
    → generation < 2 ^ 64
    → All (λ d. d ≢ b':') hash
    → is_empty hash ≡ false
    → is_empty file_path ≡ false
    → parse_live_key (live_key generation hash file_path) ≡ some (generation, hash, file_path)
unfolding parse_live_key live_key format_uint split_n
parse_live_key-live_key generation hash file_path small plain filled there =
    let digits =
      digits_onto-All b':' (format_uint generation) (inr (omega arith))
        (format_uint-IsDigit generation) in
    let first = split_n-cut b':' 1 (format_uint generation) (hash ++ b':' ∷ file_path) digits in
    let second = split_n-cut b':' 0 hash file_path plain in
    ap (λ parts. live_parts (codes "live" ∷ parts))
      (first
        ∙ ap (λ more. format_uint generation ∷ more)
            (second ∙ ap (λ more. hash ∷ more) (last file_path)))
    ∙ live_parts_lem generation (format_uint generation) hash file_path
        (parse_uint-format_uint generation small) filled there
  where
    format_uint-IsDigit : (n : ℕ) → All IsDigit (format_uint n)
    format_uint-IsDigit n = digits_onto-IsDigit (suc n) n [] tt

    last : (s : Text) → split_n b':' 0 s ≡ s ∷ []
    last s = refl
