-- ===== src/CodeIndex/Lines/Bounds.antt =====
-- extract.go: the range of the offsets, and the fuel of the walk over a line.
use ragrep.Common.{
  ℕ, suc, zero, ◌+◌, ◌-◌, ◌≤◌, ◌<◌, ◌≡◌, refl, subst, Bool, Bool-cases, true, false, not, ◌&&◌,
  ◌||◌, ◌==◌, leb, ltb, List, [], ◌∷◌, length, take, drop, get_elem?, ◌⊎◌, ◌*◌, leb→le, All,
  All-map, inl, inr, Option, none, some, if◌then◌else◌, Result, ok, err, arith,
}
use ragrep.CodeIndex.{Position}
use ragrep.CodeIndex.Lines.{
  LineIndex, begins_newline, line_starts, new_line_index, trim_last, trim_line_terminator,
  line_bytes, decode_rune, rune_len, walk, ExtractError, offset, continues, byte_at, second_fits,
}

line_starts-bound : (i : ℕ) (s : List ℕ) → All (λ n. n ≤ i + length s) (line_starts i s)
unfolding line_starts
line_starts-bound i [] = tt
line_starts-bound i (c ∷ s) =
    let more : All (λ n. n ≤ i + suc (length s)) (line_starts (suc i) s) =
      All-map (λ n. n ≤ suc i + length s) (λ n. n ≤ i + suc (length s)) (λ n h. omega (arith, h))
        (line_starts (suc i) s) (line_starts-bound (suc i) s) in
    elim (Bool-cases (c == b'\n' || c == b'\r' && not (begins_newline s))) [
      | inl e ↦ rw (e) (omega arith, more)
      | inr e ↦ rw (e) more
    ]

length-trim_last : (c : ℕ) (s : List ℕ) → length (trim_last c s) ≤ length s
unfolding trim_last
length-trim_last c [] = omega arith
length-trim_last c (d ∷ []) = ground arith
length-trim_last c (d ∷ e ∷ s) = omega (arith, length-trim_last c (e ∷ s))

length-drop : (n : ℕ) (s : List ℕ) → length (drop n s) ≡ length s - n
length-drop zero s = omega arith
length-drop (suc n) [] = omega arith
length-drop (suc n) (c ∷ s) = omega (arith, length-drop n s)

length-take_le : (n : ℕ) (s : List ℕ) → length (take n s) ≤ length s
length-take_le zero s = omega arith
length-take_le (suc n) [] = omega arith
length-take_le (suc n) (c ∷ s) = omega (arith, length-take_le n s)

continues-length : (s : List ℕ) (i : ℕ) → continues s i ≡ true → i < length s
unfolding continues
continues-length [] i h = cc
continues-length (c ∷ s) zero h = omega arith
continues-length (c ∷ s) (suc i) h = omega (arith, continues-length s i h)

sizes :
    (L x : ℕ) (a b c d : Bool) (r1 r2 r3 r4 r5 : ℕ)
    → 1 ≤ L
    → (b ≡ true → 2 ≤ L)
    → (c ≡ true → 3 ≤ L)
    → (d ≡ true → 4 ≤ L)
    → (let r : ℕ × ℕ =
          (if a
            then (r1, 1)
            else if b
            then (r2, 2)
            else if c
            then (r3, 3)
            else if d
            then (r4, 4)
            else (r5, 1)) in
        (r.1 ≤ L) × (1 ≤ r.1))
sizes L x true b c d r1 r2 r3 r4 r5 h hb hc hd = (h, omega arith)
sizes L x false true c d r1 r2 r3 r4 r5 h hb hc hd = (hb refl, omega arith)
sizes L x false false true d r1 r2 r3 r4 r5 h hb hc hd = (hc refl, omega arith)
sizes L x false false false true r1 r2 r3 r4 r5 h hb hc hd = (hd refl, omega arith)
sizes L x false false false false r1 r2 r3 r4 r5 h hb hc hd = (h, omega arith)

-- A rune is no longer than what is left, and not empty.
decode_rune-size :
    (s : List ℕ) → 1 ≤ length s → ((decode_rune s).1 ≤ length s) × (1 ≤ (decode_rune s).1)
unfolding decode_rune
decode_rune-size s some_byte =
    let c = byte_at s 0 in
    let d = byte_at s 1 in
    sizes (length s) 0 (ltb c 0x80) (leb 0xc2 c && leb c 0xdf && continues s 1)
      (leb 0xe0 c && leb c 0xef && continues s 1 && continues s 2 && second_fits c d)
      (leb 0xf0 c
        && leb c 0xf4
        && continues s 1
        && continues s 2
        && continues s 3
        && second_fits c d)
      c ((c - 0xc0) * 0x40 + (d - 0x80))
      ((c - 0xe0) * 0x1000 + (d - 0x80) * 0x40 + (byte_at s 2 - 0x80))
      ((c - 0xf0) * 0x40000
        + (d - 0x80) * 0x1000
        + (byte_at s 2 - 0x80) * 0x40
        + (byte_at s 3 - 0x80))
      0xfffd some_byte (λ h. continues-length s 1 (two (leb 0xc2 c) (leb c 0xdf) (continues s 1) h))
      (λ h.
        continues-length s 2
          (three (leb 0xe0 c) (leb c 0xef) (continues s 1) (continues s 2) (second_fits c d) h))
      (λ h. continues-length s 3 (
        four (leb 0xf0 c) (leb c 0xf4) (continues s 1) (continues s 2) (continues s 3)
          (second_fits c d) h))
  where
    two : (a b c : Bool) → (a && b && c) ≡ true → c ≡ true
    two a b c h = ground arith

    three : (a b c d e : Bool) → (a && b && c && d && e) ≡ true → d ≡ true
    three a b c d e h = ground arith

    four : (a b c d e f : Bool) → (a && b && c && d && e && f) ≡ true → e ≡ true
    four a b c d e f h = ground arith

-- The loop stays within the line, and its fuel lasts: it ends because the units are reached or the
-- line ends.
pub walk-bound :
    (fuel character units b : ℕ) (s : List ℕ)
    → length s ≤ fuel
    → (let r = walk fuel character units b s in
        (r.1 ≤ b + length s) × ((character ≤ r.0) ⊎ (r.1 ≡ b + length s)))
unfolding walk
walk-bound zero character units b [] h = (omega arith, inr (omega arith))
walk-bound zero character units b (c ∷ s) h = absurd (no_fuel (length s) h)
  where
    no_fuel : (n : ℕ) → suc n ≤ 0 → ⊥
    no_fuel n h = omega arith
walk-bound (suc fuel) character units b [] h = (omega arith, inr (omega arith))
walk-bound (suc fuel) character units b (c ∷ s) h = elim (Bool-cases (leb character units)) [
  | inl e ↦ rw (e) (omega arith, inl (leb→le character units e))
  | inr e ↦
      let size = (decode_rune (c ∷ s)).1 in
      let fits = decode_rune-size (c ∷ s) (omega arith) in
      let left = length-drop size (c ∷ s) in
      let more =
        walk-bound fuel character (units + rune_len (decode_rune (c ∷ s)).0) (b + size)
          (drop size (c ∷ s)) (omega (arith, left, fits.0, fits.1, h)) in
      rw (e) (
        omega (arith, more.0, left, fits.0),
        elim more.1 [ inl x ↦ inl x | inr x ↦ inr (omega (arith, x, left, fits.0)) ],
      )
]

All-get_elem? : (P : ℕ → Type 0) (xs : List ℕ) (n x : ℕ) → All P xs → get_elem? xs n ≡ some x → P x
All-get_elem? P [] n x a h = cc
All-get_elem? P (y ∷ xs) zero x a h = subst P (same h) a.0
  where
    same : {u v : ℕ} → some u ≡ some v → u ≡ v
    same h = cc
All-get_elem? P (y ∷ xs) (suc n) x a h = All-get_elem? P xs n x a.1 h

starts-bound : (content : List ℕ) → All (λ n. n ≤ length content) (new_line_index content).starts
unfolding new_line_index
starts-bound content = (
  omega arith,
  All-map (λ n. n ≤ 0 + length content) (λ n. n ≤ length content) (λ n h. omega (arith, h))
      (line_starts 0 content) (line_starts-bound 0 content),
)

-- A line does not reach behind the file.
line_bytes-length :
    (li : LineIndex) (n start : ℕ)
    → get_elem? li.starts n ≡ some start
    → length (line_bytes li n) ≤ length li.content - start
unfolding line_bytes trim_line_terminator
line_bytes-length li n start e = go (get_elem? li.starts n) e
  where
    end : ℕ
    end = elim (get_elem? li.starts (suc n)) as (λ _. ℕ) [
      | none ↦ length li.content
      | some next ↦ next
    ]

    some_same : {u v : ℕ} → some u ≡ some v → u ≡ v
    some_same h = cc

    cut :
        (s : ℕ)
        → length (trim_line_terminator (take (end - s) (drop s li.content))) ≤ length li.content - s
    cut s =
        let piece = take (end - s) (drop s li.content) in
        omega (
          arith,
          length-trim_last b'\r' (trim_last b'\n' piece),
          length-trim_last b'\n' piece,
          length-take_le (end - s) (drop s li.content),
          length-drop s li.content,
        )

    go :
        (o : Option ℕ)
        → o ≡ some start
        → length (elim o as (λ _. List ℕ) [
          | none ↦ []
          | some s ↦ trim_line_terminator (take (end - s) (drop s li.content))
        ])
          ≤ length li.content - start
    go none h = cc
    go (some s) h =
        subst
          (λ t.
            length (trim_line_terminator (take (end - s) (drop s li.content)))
            ≤ length li.content - t)
          (some_same h) (cut s)

-- An offset in a file is at most its length, whatever the position and the bytes are.
pub offset-bound :
    (content : List ℕ) (pos : Position) (o : ℕ)
    → offset (new_line_index content) pos ≡ ok o
    → o ≤ length content
unfolding offset new_line_index
offset-bound content pos o = go (get_elem? (new_line_index content).starts pos.line) refl
  where
    li : LineIndex
    li = new_line_index content

    sum : {a b : ℕ} → ◌≡◌ {A = Result ExtractError ℕ} (ok a) (ok b) → a ≡ b
    sum h = cc

    reach :
        (b : Bool) (len walked start : ℕ)
        → (start + (if b then len else walked)) ≡ o
        → walked ≤ 0 + len
        → len ≤ length content - start
        → start ≤ length content
        → o ≤ length content
    reach true len walked start e w l s = omega (arith, e, w, l, s)
    reach false len walked start e w l s = omega (arith, e, w, l, s)

    go :
        (start : Option ℕ)
        → get_elem? li.starts pos.line ≡ start
        → ◌≡◌ {A = Result ExtractError ℕ}
            (elim start [
              | none ↦ err (ExtractError.line_out_of_range pos.line)
              | some start ↦
                  let line = line_bytes li pos.line in
                  let behind = walk (length line) pos.character 0 0 line in
                  ok (start + (if ltb behind.0 pos.character then length line else behind.1))
            ])
            (ok o)
        → o ≤ length content
    go none e h = cc
    go (some start) e h =
        let line = line_bytes li pos.line in
        let behind = walk (length line) pos.character 0 0 line in
        let short = line_bytes-length li pos.line start e in
        let first =
          All-get_elem? (λ n. n ≤ length content) li.starts pos.line start (starts-bound content)
            e in
        let inner = walk-bound (length line) pos.character 0 0 line (omega arith) in
        reach (ltb behind.0 pos.character) (length line) behind.1 start (sum h) inner.0 short first
