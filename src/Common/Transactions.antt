-- ===== src/Common/Transactions.antt =====
-- Transactions of a database driver: statements that may fail, in order, on a copy of the tables.
use mathlib.Core.Path.{◌≡◌, refl, subst}
use mathlib.Core.List.{List, [], ◌∷◌}
use mathlib.Core.Option.{Option, none, some}
use ragrep.Common.Results.{Result, ok, err}

abbrev pub Tx : Type 0 → Type 0 → Type 0
Tx Fault Tables = Tables → Result Fault Tables

module _ {Fault Tables : Type 0} where
  -- A statement, which the driver may answer with an error.
  unfoldable pub statement :
      (Tables → Option Fault) → (Tables → Tables) → Tables → Result Fault Tables
  statement fault change db = elim (fault db) [ some e ↦ err e | none ↦ ok (change db) ]

  -- The outcome of a call that can fail before it gives a value.
  unfoldable pub given :
      {A : Type 0}
      → Result Fault A
      → (A → Tables → Result Fault Tables)
      → Tables
      → Result Fault Tables
  given (ok a) run db = run a db
  given (err e) run db = err e

  infixl 10 ◌>>>◌
  unfoldable pub ◌>>>◌ : Tx Fault Tables → Tx Fault Tables → Tables → Result Fault Tables
  ◌>>>◌ first second db = elim (first db) [ ok t ↦ second t | err e ↦ err e ]

  unfoldable pub each :
      {A : Type 0} → (A → Tables → Result Fault Tables) → List A → Tables → Result Fault Tables
  unfolding ◌>>>◌
  each run [] db = ok db
  each run (x ∷ xs) db = (run x >>> each run xs) db

  -- A transaction that succeeds relates the tables before it to those after it.
  abbrev pub Leads : (Tables → Tables → Type 0) → Tx Fault Tables → Type 0
  Leads R m = (db : Tables) (t : Tables) → m db ≡ ok t → R db t

  pub statement-Leads :
      (fault : Tables → Option Fault) (change : Tables → Tables)
      → Leads (λ db t. change db ≡ t) (statement fault change)
  unfolding statement
  statement-Leads fault change db t = go (fault db)
    where
      go :
          (o : Option Fault)
          → ◌≡◌ {A = Result Fault Tables} (elim o [ some e ↦ err e | none ↦ ok (change db) ]) (ok t)
          → change db ≡ t
      go none h = cc
      go (some e) h = cc

  pub given-Leads :
      {A : Type 0} (r : Result Fault A) (run : A → Tables → Result Fault Tables) (db t : Tables)
      → given r run db ≡ ok t
      → (a : A) × (r ≡ ok a) × (run a db ≡ ok t)
  unfolding given
  given-Leads (ok a) run db t h = (a, refl, h)
  given-Leads (err e) run db t h = cc

  pub >>>-Leads :
      (first second : Tables → Result Fault Tables) (db t : Tables)
      → (first >>> second) db ≡ ok t
      → (u : Tables) × (first db ≡ ok u) × (second u ≡ ok t)
  unfolding ◌>>>◌
  >>>-Leads first second db t = go (first db) refl
    where
      go :
          (r : Result Fault Tables)
          → first db ≡ r
          → ◌≡◌ {A = Result Fault Tables} (elim r [ ok u ↦ second u | err e ↦ err e ]) (ok t)
          → (u : Tables) × (first db ≡ ok u) × (second u ≡ ok t)
      go (ok u) e h = (u, e, h)
      go (err x) e h = cc

  -- What every round keeps, the loop keeps.
  pub each-keeps :
      {A : Type 0} (P : Tables → Type 0) (run : A → Tables → Result Fault Tables)
      → ((x : A) (db t : Tables) → P db → run x db ≡ ok t → P t)
      → (xs : List A) (db t : Tables) → P db
      → each run xs db ≡ ok t
      → P t
  unfolding each
  each-keeps P run keep [] db t p h = subst P (injective h) p
    where
      injective : {x y : Tables} → ◌≡◌ {A = Result Fault Tables} (ok x) (ok y) → x ≡ y
      injective h = cc
  each-keeps P run keep (x ∷ xs) db t p h =
      let step = >>>-Leads (run x) (each run xs) db t h in
      each-keeps P run keep xs step.0 t (keep x db step.0 p step.1) step.2

  -- A transaction that does not commit leaves the tables as they were.
  unfoldable pub finally :
      {Answer Error : Type 0}
      → (Fault → Error)
      → Answer
      → Tx Fault Tables
      → Tables
      → Tables × Result Error Answer
  finally wrap answer tx db = elim (tx db) [ ok t ↦ (t, ok answer) | err e ↦ (db, err (wrap e)) ]

  -- Its two outcomes.
  pub finally-cases :
      {Answer Error : Type 0} (wrap : Fault → Error) (answer : Answer)
      (tx : Tables → Result Fault Tables) (db : Tables) (P : Tables × Result Error Answer → Type 0)
      → ((e : Fault) → P (db, err (wrap e)))
      → ((t : Tables) → tx db ≡ ok t → P (t, ok answer))
      → P (finally wrap answer tx db)
  unfolding finally
  finally-cases wrap answer tx db P failed done = go (tx db) refl
    where
      go :
          (r : Result Fault Tables)
          → tx db ≡ r
          → P (elim r [ ok t ↦ (t, ok answer) | err e ↦ (db, err (wrap e)) ])
      go (ok t) h = done t h
      go (err e) h = failed e
