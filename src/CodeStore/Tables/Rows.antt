-- ===== src/CodeStore/Tables/Rows.antt =====
-- symbols.go: how the text index and the vectors depend on the rows of symbols.
use ragrep.Common.{
  ℕ, ◌≡◌, ◌≢◌, refl, sym, ap, subst, ◌∙◌, ◌==◌, ==_iff, Text, text_eq, text_eq_iff, text_eq_refl,
  Bool, true, false, not, List, [], ◌∷◌, ◌++◌, map, select, find, Option, none, some, inl, inr, All,
  In, IsNodup, find-In, Bool-cases, if◌then◌else◌, arith,
}
use ragrep.CodeStore.Tables.{
  SymbolRow, Posting, CodeDb, posting, posting_eq, take_out, assign, find_key,
}

abbrev pub find_id : ℕ → List SymbolRow → Option SymbolRow
find_id n = find (λ row. row.id == n)

abbrev pub has {ℓ} : {A : Type ℓ} → Option A → Bool
has none = false
has (some a) = true

-- What the text index should hold for an id.
abbrev pub posted : Option SymbolRow → List Posting
posted none = []
posted (some row) = posting row.symbol ∷ []

abbrev pub ids_of : List SymbolRow → List ℕ
ids_of = map (λ row. row.id)

abbrev pub keys_of : List SymbolRow → List Text
keys_of = map (λ row. row.symbol.key)

-- Ids and keys are distinct, and each row has one entry in the text index, of its own columns, and
-- one vector, under its id; nothing else has.
pub record IsInStep {Blob : Type 0} (db : CodeDb Blob) : Type 0 where
  pub ids : IsNodup (ids_of db.symbols)
  pub keys : IsNodup (keys_of db.symbols)
  pub fts : (n : ℕ) → db.symbol_fts n ≡ posted (find_id n db.symbols)
  pub vec : (n : ℕ) → has (db.symbol_vec n) ≡ has (find_id n db.symbols)

pub find_id-select :
    (k n : ℕ) (rows : List SymbolRow)
    → find_id n (select (λ row. not (row.id == k)) rows) ≡ (if k == n then none else find_id n rows)
unfolding find select
find_id-select k n [] = ground arith
find_id-select k n (row ∷ rows) = ground (arith, find_id-select k n rows)

pub find_id-map :
    (k n : ℕ) (f : SymbolRow → SymbolRow) (rows : List SymbolRow)
    → ((row : SymbolRow) → (f row).id ≡ row.id)
    → find_id n (map (λ row. if row.id == k then f row else row) rows) ≡ (
        if k == n
        then elim (find_id n rows) [ none ↦ none | some row ↦ some (f row) ]
        else find_id n rows)
unfolding find
find_id-map k n f [] same = ground arith
find_id-map k n f (row ∷ rows) same = ground (arith, same row, find_id-map k n f rows same)

pub find_id-snoc :
    (row : SymbolRow) (n : ℕ) (rows : List SymbolRow)
    → ¬ (In row.id (ids_of rows))
    → find_id n (rows ++ row ∷ []) ≡ (if row.id == n then some row else find_id n rows)
unfolding find
find_id-snoc row n [] new = ground arith
find_id-snoc row n (r ∷ rows) new = elim (Bool-cases (r.id == n)) [
  | inl e ↦ elim (Bool-cases (row.id == n)) [
    | inl s ↦ absurd (new (inl ((==_iff r.id n).0 e ∙ sym ((==_iff row.id n).0 s))))
    | inr s ↦ rw (e, s) refl
  ]
  | inr e ↦ rw (e) (find_id-snoc row n rows (λ i. new (inr i)))
]

pub find_id-none : (n : ℕ) (rows : List SymbolRow) → ¬ (In n (ids_of rows)) → find_id n rows ≡ none
unfolding find
find_id-none n [] new = refl
find_id-none n (r ∷ rows) new = elim (Bool-cases (r.id == n)) [
  | inl e ↦ absurd (new (inl ((==_iff r.id n).0 e)))
  | inr e ↦ rw (e) (find_id-none n rows (λ i. new (inr i)))
]

posting_eq_refl : (p : Posting) → posting_eq p p ≡ true
unfolding posting_eq
posting_eq_refl p =
    rw
      (
        text_eq_refl p.name,
        text_eq_refl p.qualified_name,
        text_eq_refl p.signature,
        text_eq_refl p.documentation,
        text_eq_refl p.body,
      )
      refl

pub take_out_self : (p : Posting) → take_out p (p ∷ []) ≡ []
unfolding take_out
take_out_self p = rw (posting_eq_refl p) refl

pub assign_same : {A : Type 0} (k : ℕ) (v : A) (f : ℕ → A) → assign k v f k ≡ v
unfolding assign
assign_same k v f = rw ((==_iff k k).1 refl) refl

-- Each row of the table is found by its id.
pub find_id-In :
    (rows : List SymbolRow) (row : SymbolRow)
    → IsNodup (ids_of rows)
    → In row rows
    → find_id row.id rows ≡ some row
unfolding find
find_id-In [] row d i = absurd i
find_id-In (r ∷ rows) row d (inl e) = rw (e, (==_iff row.id row.id).1 refl) refl
find_id-In (r ∷ rows) row d (inr i) = elim (Bool-cases (r.id == row.id)) [
  | inl e ↦ absurd (other rows d.0 i ((==_iff r.id row.id).0 e))
  | inr e ↦ rw (e) (find_id-In rows row d.1 i)
]
  where
    other : (xs : List SymbolRow) → All (λ y. y ≢ r.id) (ids_of xs) → In row xs → ¬ (r.id ≡ row.id)
    other [] a i s = i
    other (y ∷ ys) a (inl e) s = a.0 (ap (λ z. z.id) e ∙ sym s)
    other (y ∷ ys) a (inr i) s = other ys a.1 i s

pub find_id→In :
    (n : ℕ) (rows : List SymbolRow) (row : SymbolRow)
    → find_id n rows ≡ some row
    → In n (ids_of rows)
find_id→In n rows row h =
    let found = find-In (λ r. r.id == n) rows h in
    subst (λ m. In m (ids_of rows)) ((==_iff row.id n).0 found.1) (under rows found.0)
  where
    under : (xs : List SymbolRow) → In row xs → In row.id (ids_of xs)
    under [] i = i
    under (x ∷ xs) (inl e) = inl (ap (λ z. z.id) e)
    under (x ∷ xs) (inr i) = inr (under xs i)

pub find_key-none :
    (key : Text) (rows : List SymbolRow) → find_key key rows ≡ none → ¬ (In key (keys_of rows))
unfolding find_key find
find_key-none key [] = λ h i. i
find_key-none key (r ∷ rows) = elim (Bool-cases (text_eq r.symbol.key key)) [
  | inl e ↦ rw (e) (λ h i. cc)
  | inr e ↦ rw (e) (λ h i. elim i [
    | inl s ↦ cc (e, (text_eq_iff r.symbol.key key).1 s)
    | inr j ↦ find_key-none key rows h j
  ])
]
