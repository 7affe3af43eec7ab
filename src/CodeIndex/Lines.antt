-- ===== src/CodeIndex/Lines.antt =====
-- src/internal/codeindex/extract.go: the line index, which turns a position into a byte offset.
pub mod Bounds
use ragrep.Common.{
  ℕ, suc, zero, ◌+◌, ◌-◌, ◌*◌, Text, Bool, true, false, not, ◌&&◌, ◌||◌, ◌==◌, leb, ltb, List, [],
  ◌∷◌, length, take, drop, get_elem?, Option, none, some, if◌then◌else◌, Result, ok, err,
}
use ragrep.CodeIndex.{Position}

-- `content` are bytes.
pub record LineIndex : Type 0 where
  pub content : List ℕ
  pub starts : List ℕ

unfoldable pub begins_newline : List ℕ → Bool
begins_newline [] = false
begins_newline (c ∷ s) = c == b'\n'

-- A line starts after `\n`, and after a `\r` that no `\n` follows.
unfoldable pub line_starts : ℕ → List ℕ → List ℕ
unfolding begins_newline
line_starts i [] = []
line_starts i (c ∷ s) =
    let rest = line_starts (suc i) s in
    if c == b'\n' || c == b'\r' && not (begins_newline s) then suc i ∷ rest else rest

unfoldable pub new_line_index : List ℕ → LineIndex
unfolding line_starts
new_line_index content = record { content = content; starts = 0 ∷ line_starts 0 content }

-- The bytes without a last `c`.
unfoldable pub trim_last : ℕ → List ℕ → List ℕ
trim_last c [] = []
trim_last c (d ∷ []) = if d == c then [] else d ∷ []
trim_last c (d ∷ e ∷ s) = d ∷ trim_last c (e ∷ s)

unfoldable pub trim_line_terminator : List ℕ → List ℕ
unfolding trim_last
trim_line_terminator line = trim_last b'\r' (trim_last b'\n' line)

unfoldable pub line_bytes : LineIndex → ℕ → List ℕ
unfolding trim_line_terminator
line_bytes li n = elim (get_elem? li.starts n) [
  | none ↦ []
  | some start ↦
      let end = elim (get_elem? li.starts (suc n)) as (λ _. ℕ) [
        | none ↦ length li.content
        | some next ↦ next
      ] in
      trim_line_terminator (take (end - start) (drop start li.content))
]

-- A byte that continues a rune.
unfoldable pub continues : List ℕ → ℕ → Bool
continues [] i = false
continues (c ∷ s) zero = leb 0x80 c && leb c 0xbf
continues (c ∷ s) (suc i) = continues s i

unfoldable pub byte_at : List ℕ → ℕ → ℕ
byte_at [] i = 0
byte_at (c ∷ s) zero = c
byte_at (c ∷ s) (suc i) = byte_at s i

-- The range of the second byte after some first bytes.
unfoldable pub second_fits : ℕ → ℕ → Bool
second_fits c d =
    if c == 0xe0
    then leb 0xa0 d
    else if c == 0xed
    then leb d 0x9f
    else if c == 0xf0
    then leb 0x90 d
    else if c == 0xf4
    then leb d 0x8f
    else true

-- `utf8.DecodeRune` on bytes that are not empty: the rune and its size; U+FFFD and 1 for no encoding.
unfoldable pub decode_rune : List ℕ → ℕ × ℕ
unfolding continues byte_at second_fits
decode_rune s =
    let c = byte_at s 0 in
    let d = byte_at s 1 in
    if ltb c 0x80
    then (c, 1)
    else if leb 0xc2 c && leb c 0xdf && continues s 1
    then ((c - 0xc0) * 0x40 + (d - 0x80), 2)
    else if leb 0xe0 c && leb c 0xef && continues s 1 && continues s 2 && second_fits c d
    then ((c - 0xe0) * 0x1000 + (d - 0x80) * 0x40 + (byte_at s 2 - 0x80), 3)
    else if leb 0xf0 c
        && leb c 0xf4
        && continues s 1
        && continues s 2
        && continues s 3
        && second_fits c d
    then (
      (c - 0xf0) * 0x40000
          + (d - 0x80) * 0x1000
          + (byte_at s 2 - 0x80) * 0x40
          + (byte_at s 3 - 0x80),
      4,
    )
    else (0xfffd, 1)

-- `utf16.RuneLen` of a decoded rune, which is no surrogate.
unfoldable pub rune_len : ℕ → ℕ
rune_len r = if leb 0x10000 r then 2 else 1

-- The loop of `offset` on the rest of the line, with a round for each of its bytes at most: the units
-- and the bytes behind it.
unfoldable pub walk : ℕ → ℕ → ℕ → ℕ → List ℕ → ℕ × ℕ
unfolding decode_rune rune_len
walk zero character units b rest = (units, b)
walk (suc fuel) character units b [] = (units, b)
walk (suc fuel) character units b (c ∷ s) =
    let rune = decode_rune (c ∷ s) in
    let next = walk fuel character (units + rune_len rune.0) (b + rune.1) (drop rune.1 (c ∷ s)) in
    if leb character units then (units, b) else next

pub data ExtractError : Type 0 where
  line_out_of_range : ℕ → ExtractError
  end_before_start : ℕ → ℕ → ExtractError
  in_symbol : Text → ExtractError → ExtractError

-- Positions here are never negative; the code refuses those that are.
unfoldable pub offset : LineIndex → Position → Result ExtractError ℕ
unfolding line_bytes walk
offset li pos = elim (get_elem? li.starts pos.line) [
  | none ↦ err (ExtractError.line_out_of_range pos.line)
  | some start ↦
      let line = line_bytes li pos.line in
      let behind = walk (length line) pos.character 0 0 line in
      ok (start + (if ltb behind.0 pos.character then length line else behind.1))
]
