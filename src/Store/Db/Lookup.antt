-- ===== src/Store/Db/Lookup.antt =====
-- Looking up documents in a table that has changed.
use ragrep.Common.{
  ℕ, ◌≡◌, ◌≢◌, inl, inr, ==_iff, refl, sym, ap, subst, ◌∙◌, ◌==◌, Text, text_eq, text_eq_iff, Bool,
  true, false, none, some, List, [], ◌∷◌, ◌++◌, map, find, select, All, Bool-cases,
}
use ragrep.Store.Db.{Document, find_doc, update_doc}
use ragrep.Store.Db.Find.{update_doc-path}

pub text_eq-false : (a b : Text) → a ≢ b → text_eq a b ≡ false
text_eq-false a b other = elim (Bool-cases (text_eq a b)) [
  | inl e ↦ absurd (other ((text_eq_iff a b).0 e))
  | inr e ↦ e
]

pub find_doc-put :
    (path : Text) (docs : List Document) (row : Document)
    → find_doc path docs ≡ none
    → row.path ≡ path
    → find_doc path (docs ++ row ∷ []) ≡ some row
unfolding find_doc find
find_doc-put path [] row = λ h same. rw ((text_eq_iff row.path path).1 same) refl
find_doc-put path (x ∷ docs) row = elim (Bool-cases (text_eq x.path path)) [
  | inl e ↦ rw (e) (λ h s. cc)
  | inr e ↦ rw (e) (λ h s. find_doc-put path docs row h s)
]

pub find_doc-put_other :
    (other : Text) (docs : List Document) (row : Document)
    → row.path ≢ other
    → find_doc other (docs ++ row ∷ []) ≡ find_doc other docs
unfolding find_doc find
find_doc-put_other other [] row apart = rw (text_eq-false row.path other apart) refl
find_doc-put_other other (x ∷ docs) row apart = elim (Bool-cases (text_eq x.path other)) [
  | inl e ↦ rw (e) refl
  | inr e ↦ rw (e) (find_doc-put_other other docs row apart)
]

some_inj : {A : Type 0} {x y : A} → some x ≡ some y → x ≡ y
some_inj h = cc

module _ (content : Text) (mtime : ℕ) (hash : Text) where
  update_doc-same :
      (d : Document)
      → update_doc d.id content mtime hash d
        ≡ record d { content = content; mtime = mtime; hash = hash }
  unfolding update_doc
  update_doc-same d = rw ((==_iff d.id d.id).1 refl) refl

  update_doc-away : (x : Document) (id : ℕ) → ¬ (x.id ≡ id) → update_doc id content mtime hash x ≡ x
  unfolding update_doc
  update_doc-away x id away = elim (Bool-cases (x.id == id)) [
    | inl e ↦ absurd (away ((==_iff x.id id).0 e))
    | inr e ↦ rw (e) refl
  ]

  pub find_doc-update :
      (path : Text) (docs : List Document) (d : Document)
      → find_doc path docs ≡ some d
      → find_doc path (map (update_doc d.id content mtime hash) docs)
        ≡ some record d { content = content; mtime = mtime; hash = hash }
  unfolding find_doc find
  find_doc-update path [] d = λ h. cc
  find_doc-update path (x ∷ docs) d =
      let same = ap (λ p. text_eq p path) (update_doc-path d.id content mtime hash x) in
      elim (Bool-cases (text_eq x.path path)) [
        | inl e ↦
            rw (same ∙ e, e)
              (λ h. ap some (
                subst
                  (λ y.
                    update_doc d.id content mtime hash y
                    ≡ record d { content = content; mtime = mtime; hash = hash })
                  (sym (some_inj h)) (update_doc-same d)))
        | inr e ↦ rw (same ∙ e, e) (λ h. find_doc-update path docs d h)
      ]

  pub find_doc-update_other :
      (id : ℕ) (other : Text) (docs : List Document)
      → All (λ x. x.id ≡ id → x.path ≢ other) docs
      → find_doc other (map (update_doc id content mtime hash) docs) ≡ find_doc other docs
  unfolding find_doc find
  find_doc-update_other id other [] h = refl
  find_doc-update_other id other (x ∷ docs) h =
      let same = ap (λ p. text_eq p other) (update_doc-path id content mtime hash x) in
      elim (Bool-cases (text_eq x.path other)) [
        | inl e ↦
            rw (same ∙ e, e)
              (ap some (update_doc-away x id (λ s. h.0 s ((text_eq_iff x.path other).0 e))))
        | inr e ↦ rw (same ∙ e, e) (find_doc-update_other id other docs h.1)
      ]

pub find_doc-select :
    (path : Text) (Q : Document → Bool) (docs : List Document)
    → All (λ x. x.path ≡ path → Q x ≡ true) docs
    → find_doc path (select Q docs) ≡ find_doc path docs
unfolding find_doc find select
find_doc-select path Q [] h = refl
find_doc-select path Q (x ∷ docs) h = elim (Bool-cases (text_eq x.path path)) [
  | inl e ↦ rw (e, h.0 ((text_eq_iff x.path path).0 e), e) refl
  | inr e ↦ elim (Bool-cases (Q x)) [
    | inl k ↦ rw (k, e) (find_doc-select path Q docs h.1)
    | inr k ↦ rw (k, e) (find_doc-select path Q docs h.1)
  ]
]

pub find_doc-gone :
    (path : Text) (Q : Document → Bool) (docs : List Document)
    → All (λ x. x.path ≡ path → Q x ≡ false) docs
    → find_doc path (select Q docs) ≡ none
unfolding find_doc find select
find_doc-gone path Q [] h = refl
find_doc-gone path Q (x ∷ docs) h = elim (Bool-cases (Q x)) [
  | inl k ↦ elim (Bool-cases (text_eq x.path path)) [
    | inl e ↦ cc (k, h.0 ((text_eq_iff x.path path).0 e))
    | inr e ↦ rw (k, e) (find_doc-gone path Q docs h.1)
  ]
  | inr k ↦ rw (k) (find_doc-gone path Q docs h.1)
]
