-- ===== src/CodeStore/Lookups/Innermost.antt =====
-- symbols.go: SymbolAt and its order on ranges.
use ragrep.Common.{
  ℕ, ◌-◌, ◌<◌, ◌≤◌, ◌≡◌, refl, sym, subst, ◌∙◌, ◌⊎◌, inl, inr, Text, text_eq, Bool, true, false,
  ◌&&◌, ◌||◌, ◌==◌, ltb, leb, List, [], ◌∷◌, select, for_each, All, Any, In, ◌↔◌, text_eq_iff,
  leb→le, Bool-cases, Option, none, some, if◌then◌else◌, Result, ok, err, arith, select-In,
  select-passes, In-select,
}
use ragrep.CodeStore.{StoreError, database}
use ragrep.CodeStore.Tables.{SymbolRow, CodeDb}
use ragrep.CodeStore.Upsert.{CodeEnv}
use ragrep.CodeStore.LiveFiles.{ask}
use ragrep.CodeStore.Lookups.{Best, narrower, covers, symbol_at}

abbrev pub span_of : SymbolRow → ℕ
span_of row = row.symbol.range.end.line - row.symbol.range.start.line

abbrev pub best_of : SymbolRow → Best
best_of row = record {
  key = row.symbol.key;
  ok = true;
  span = span_of row;
  start = row.symbol.range.start.line;
}

-- A narrower range, or one as wide that does not start before.
abbrev pub Beats : Best → Best → Type 0
Beats a b = (a.span < b.span) ⊎ ((a.span ≡ b.span) × (b.start ≤ a.start))

Beats-refl : (a : Best) → Beats a a
Beats-refl a = inr (refl, omega arith)

Beats-trans : (a b c : Best) → Beats a b → Beats b c → Beats a c
Beats-trans a b c (inl x) (inl y) = inl (omega (arith, x, y))
Beats-trans a b c (inl x) (inr y) = inl (omega (arith, x, y.0))
Beats-trans a b c (inr x) (inl y) = inl (omega (arith, x.0, y))
Beats-trans a b c (inr x) (inr y) = inr (x.0 ∙ y.0, omega (arith, x.1, y.1))

narrower-Beats :
    (best : Best) (row : SymbolRow)
    → best.ok ≡ true
    → (narrower best row ≡ best × Beats best (best_of row))
      ⊎ (narrower best row ≡ best_of row × Beats (best_of row) best)
unfolding narrower
narrower-Beats best row set =
    let start = row.symbol.range.start.line in
    elim (Bool-cases
      (ltb (span_of row) best.span || span_of row == best.span && ltb best.start start)) [
        | inl e ↦ inr (rw (set, e) refl, wins (span_of row) best.span best.start start e)
        | inr e ↦ inl (rw (set, e) refl, loses (span_of row) best.span best.start start e)
      ]
  where
    wins : (s b p q : ℕ) → (ltb s b || s == b && ltb p q) ≡ true → (s < b) ⊎ ((s ≡ b) × (p ≤ q))
    wins s b p q e = ground arith

    loses : (s b p q : ℕ) → (ltb s b || s == b && ltb p q) ≡ false → (b < s) ⊎ ((b ≡ s) × (q ≤ p))
    loses s b p q e = ground arith

-- The best of a row seen before and those to come.
abbrev pub Wins : Best → Best → List SymbolRow → Type 0
Wins r best rows =
    ((r ≡ best) ⊎ Any (λ row. r ≡ best_of row) rows)
    × Beats r best
    × All (λ row. Beats r (best_of row)) rows

loop-Wins :
    (rows : List SymbolRow) (best : Best)
    → best.ok ≡ true
    → Wins (for_each narrower best rows) best rows
loop-Wins [] best set = (inl refl, Beats-refl best, tt)
loop-Wins (row ∷ rows) best set = elim (narrower-Beats best row set) [
  | inl (e, b) ↦
      let more = loop-Wins rows best set in
      let r = for_each narrower best rows in
      subst (λ x. Wins (for_each narrower x rows) best (row ∷ rows)) (sym e)
        (
          elim more.0 [ inl s ↦ inl s | inr s ↦ inr (inr s) ],
          more.1,
          (Beats-trans r best (best_of row) more.1 b, more.2),
        )
  | inr (e, b) ↦
      let more = loop-Wins rows (best_of row) refl in
      let r = for_each narrower (best_of row) rows in
      subst (λ x. Wins (for_each narrower x rows) best (row ∷ rows)) (sym e)
        (
          elim more.0 [ inl s ↦ inr (inl s) | inr s ↦ inr (inr s) ],
          Beats-trans r (best_of row) best more.1 b,
          (more.1, more.2),
        )
]

-- A row whose range has the line, in a file.
abbrev pub Encloses : Text → ℕ → SymbolRow → Type 0
Encloses path line row =
    (row.symbol.path ≡ path)
    × (row.symbol.range.start.line ≤ line)
    × (line ≤ row.symbol.range.end.line)

-- What the answer to SymbolAt should be.
abbrev pub IsInnermost : Text → ℕ → List SymbolRow → Option Text → Type 0
IsInnermost path line rows none = (row : SymbolRow) → In row rows → ¬ (Encloses path line row)
IsInnermost path line rows (some key) =
    (row : SymbolRow) × In row rows
    × Encloses path line row
    × (row.symbol.key ≡ key)
    × ((other : SymbolRow)
        → In other rows
        → Encloses path line other
        → Beats (best_of row) (best_of other))

covers_iff :
    (path : Text) (line : ℕ) (row : SymbolRow)
    → (covers path line row ≡ true) ↔ Encloses path line row
unfolding covers
covers_iff path line row = (
  λ h.
      let parts =
        both (text_eq row.symbol.path path) (leb row.symbol.range.start.line line)
          (leb line row.symbol.range.end.line) h in
      (
        (text_eq_iff row.symbol.path path).0 parts.0,
        leb→le row.symbol.range.start.line line parts.1,
        leb→le line row.symbol.range.end.line parts.2,
      ),
  λ h.
      rw ((text_eq_iff row.symbol.path path).1 h.0)
        (within row.symbol.range.start.line row.symbol.range.end.line h.1 h.2),
)
  where
    both : (a b c : Bool) → (a && (b && c)) ≡ true → (a ≡ true) × (b ≡ true) × (c ≡ true)
    both a b c h = ground arith

    within : (s e : ℕ) → s ≤ line → line ≤ e → (leb s line && leb line e) ≡ true
    within s e x y = ground arith

Any→In :
    (P : SymbolRow → Type 0) (rows : List SymbolRow)
    → Any P rows
    → (row : SymbolRow) × In row rows × P row
Any→In P [] h = absurd h
Any→In P (x ∷ rows) (inl p) = (x, inl refl, p)
Any→In P (x ∷ rows) (inr h) = let more = Any→In P rows h in (more.0, inr more.1, more.2)

All→In :
    (P : SymbolRow → Type 0) (rows : List SymbolRow)
    → All P rows
    → (row : SymbolRow) → In row rows
    → P row
All→In P [] a row i = absurd i
All→In P (x ∷ rows) a row (inl e) = subst P e a.0
All→In P (x ∷ rows) a row (inr i) = All→In P rows a.1 row i

abbrev pub best_result : List SymbolRow → Option Text
best_result rows =
    let best = for_each narrower (record { key = []; ok = false; span = 0; start = 0 }) rows in
    if best.ok then some best.key else none

chosen :
    (path : Text) (line : ℕ) (all rows : List SymbolRow)
    → ((row : SymbolRow) → In row rows → In row all × Encloses path line row)
    → ((row : SymbolRow) → In row all → Encloses path line row → In row rows)
    → IsInnermost path line all (best_result rows)
unfolding narrower
chosen path line all [] sub sup = λ row i e. sup row i e
chosen path line all (x ∷ rest) sub sup =
    let w = loop-Wins rest (best_of x) refl in
    elim w.0 [
      | inl e ↦ won x (inl refl) e (w.1, w.2)
      | inr a ↦
          let y = Any→In (λ row. for_each narrower (best_of x) rest ≡ best_of row) rest a in
          won y.0 (inr y.1) y.2 (w.1, w.2)
    ]
  where
    r : Best
    r = for_each narrower (best_of x) rest

    won :
        (y : SymbolRow)
        → In y (x ∷ rest)
        → r ≡ best_of y
        → All (λ row. Beats r (best_of row)) (x ∷ rest)
        → IsInnermost path line all (if r.ok then some r.key else none)
    won y i e beats =
        let here = sub y i in
        subst (λ b. IsInnermost path line all (if b.ok then some b.key else none)) (sym e)
          (
            y,
            here.0,
            here.1,
            refl,
            λ other io eo.
                subst (λ b. Beats b (best_of other)) e
                  (All→In (λ row. Beats r (best_of row)) (x ∷ rest) beats other (sup other io eo)),
          )

module _ {Vector Blob : Type 0} (env : CodeEnv Vector Blob) (to_slash : Text → Text) where
  -- The answer is the key of a stored row of the path whose range has the line, and no such row has a
  -- narrower range, or one as wide that starts later; there is no answer only if there is no such row.
  pub symbol_at-IsInnermost :
      (path : Text) (line : ℕ) (db : CodeDb Blob) (found : Option Text)
      → symbol_at env to_slash path line db ≡ ok found
      → IsInnermost path line db.symbols found
  unfolding symbol_at ask
  symbol_at-IsInnermost path line db found h =
      let rows = select (covers path line) db.symbols in
      subst (IsInnermost path line db.symbols) (answered (env.fault db) h) (
        chosen path line db.symbols rows
          (λ row i. (
            select-In (covers path line) db.symbols row i,
            (covers_iff path line row).0 (select-passes (covers path line) db.symbols row i),
          ))
          (λ row i e.
            In-select (covers path line) db.symbols row i ((covers_iff path line row).1 e)))
    where
      answered :
          (o : Option Text)
          → ◌≡◌ {A = Result StoreError (Option Text)}
              (elim o [
                | some e ↦ err (database e)
                | none ↦ ok (best_result (select (covers path line) db.symbols))
              ])
              (ok found)
          → best_result (select (covers path line) db.symbols) ≡ found
      answered none k = cc
      answered (some e) k = cc
