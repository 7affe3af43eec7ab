-- ===== src/Store/Db/Purge.antt =====
-- store.go: the indices of the document database and its paragraphs, before and after a purge.
use ragrep.Common.{
  select-congr, select-map, ℕ, ◌≡◌, refl, sym, ap, ◌∙◌, ◌≢◌, ◌&&◌, ◌||◌, ◌↔◌, inl, inr, Bool, true,
  false, not, ◌==◌, Bool-cases, List, [], ◌∷◌, map, select, All, All-map, In, IsNodup, arith,
}
use ragrep.Store.Db.{
  ParaRow, FtsRow, Db, member, para_ids, delete_fts, delete_vec, delete_paragraphs, delete_doc_tags,
  purge,
}

abbrev pub fts_row : ParaRow → FtsRow
fts_row p = record { rowid = p.id; text = p.text }

abbrev pub ids_of : List ParaRow → List ℕ
ids_of = map (λ p. p.id)

abbrev pub of_doc : ℕ → ParaRow → Bool
of_doc doc p = p.doc_id == doc

-- Each paragraph has one text row and one vector under its own id; no id serves twice.
pub record IsIndexed {Blob : Type 0} (db : Db Blob) : Type 0 where
  pub same_fts : db.fts ≡ map fts_row db.paragraphs
  pub same_vec : map (λ v. v.rowid) db.vec ≡ ids_of db.paragraphs
  pub nodup : IsNodup (ids_of db.paragraphs)

pub member_iff : (n : ℕ) (ms : List ℕ) → (member n ms ≡ true) ↔ In n ms
unfolding member
member_iff n [] = (λ h. cc, λ h. absurd h)
member_iff n (m ∷ ms) = ground (arith, member_iff n ms)

pub fresh_of : (n : ℕ) (ms : List ℕ) → All (λ m. m ≢ n) ms → ¬ (In n ms)
fresh_of n [] h i = i
fresh_of n (m ∷ ms) h (inl e) = h.0 e
fresh_of n (m ∷ ms) h (inr i) = fresh_of n ms h.1 i

pub para_ids_within :
    (doc n : ℕ) (rows : List ParaRow) → In n (para_ids doc rows) → In n (ids_of rows)
unfolding para_ids select
para_ids_within doc n [] = λ i. i
para_ids_within doc n (p ∷ rows) = elim (Bool-cases (of_doc doc p)) [
  | inl e ↦ rw (e) (elim [ inl h ↦ inl h | inr h ↦ inr (para_ids_within doc n rows h) ])
  | inr e ↦ rw (e) (λ h. inr (para_ids_within doc n rows h))
]

pub member_fresh :
    (doc n : ℕ) (rows : List ParaRow)
    → ¬ (In n (ids_of rows))
    → member n (para_ids doc rows) ≡ false
member_fresh doc n rows new = elim (Bool-cases (member n (para_ids doc rows))) [
  | inl e ↦ absurd (new (para_ids_within doc n rows ((member_iff n _).0 e)))
  | inr e ↦ e
]

pub member_skip :
    (doc : ℕ) (p q : ParaRow) (rows : List ParaRow)
    → q.id ≢ p.id
    → member q.id (para_ids doc (p ∷ rows)) ≡ member q.id (para_ids doc rows)
unfolding para_ids select member
member_skip doc p q rows other = elim (Bool-cases (of_doc doc p)) [
  | inl e ↦ rw (e) (ground (arith))
  | inr e ↦ rw (e) refl
]

-- Under distinct ids, the ids of a document's rows are those of no other row.
pub member-para_ids :
    (doc : ℕ) (rows : List ParaRow)
    → IsNodup (ids_of rows)
    → All (λ p. member p.id (para_ids doc rows) ≡ of_doc doc p) rows
unfolding para_ids select member
member-para_ids doc [] h = tt
member-para_ids doc (p ∷ rows) h = (
  elim (Bool-cases (of_doc doc p)) [
    | inl e ↦ rw (e) (ground arith)
    | inr e ↦ rw (e) (member_fresh doc p.id rows (fresh_of p.id (ids_of rows) h.0))
  ],
  go rows h.0 (member-para_ids doc rows h.1),
)
  where
    go :
        (qs : List ParaRow)
        → All (λ y. y ≢ p.id) (ids_of qs)
        → All (λ q. member q.id (para_ids doc rows) ≡ of_doc doc q) qs
        → All (λ q. member q.id (para_ids doc (p ∷ rows)) ≡ of_doc doc q) qs
    go [] a b = tt
    go (q ∷ qs) a b = (member_skip doc p q rows a.0 ∙ b.0, go qs a.1 b.1)

kept :
    (doc : ℕ) (rows : List ParaRow)
    → IsNodup (ids_of rows)
    → select (λ p. not (member p.id (para_ids doc rows))) rows
      ≡ select (λ p. not (of_doc doc p)) rows
kept doc rows h =
    select-congr _ _ rows (All-map _ _ (λ p e. ap not e) rows (member-para_ids doc rows h))

select-IsNodup :
    (Q : ParaRow → Bool) (rows : List ParaRow)
    → IsNodup (ids_of rows)
    → IsNodup (ids_of (select Q rows))
unfolding select
select-IsNodup Q [] h = tt
select-IsNodup Q (p ∷ rows) h = elim (Bool-cases (Q p)) [
  | inl e ↦ rw (e) (under rows h.0, select-IsNodup Q rows h.1)
  | inr e ↦ rw (e) (select-IsNodup Q rows h.1)
]
  where
    under :
        (qs : List ParaRow)
        → All (λ y. y ≢ p.id) (ids_of qs)
        → All (λ y. y ≢ p.id) (ids_of (select Q qs))
    under [] a = tt
    under (q ∷ qs) a = elim (Bool-cases (Q q)) [
      | inl e ↦ rw (e) (a.0, under qs a.1)
      | inr e ↦ rw (e) (under qs a.1)
    ]

-- Whether a paragraph of the document has the id.
abbrev pub owns : ℕ → List ParaRow → ℕ → Bool
owns doc [] n = false
owns doc (p ∷ rows) n = (p.doc_id == doc && n == p.id) || owns doc rows n

member-owns : (doc n : ℕ) (rows : List ParaRow) → member n (para_ids doc rows) ≡ owns doc rows n
unfolding para_ids select member
member-owns doc n [] = refl
member-owns doc n (p ∷ rows) = elim (Bool-cases (p.doc_id == doc)) [
  | inl e ↦ rw (e) (ap (λ b. n == p.id || b) (member-owns doc n rows))
  | inr e ↦ rw (e) (member-owns doc n rows)
]

-- The rows that a deletion by the ids of a document's paragraphs leaves.
pub select-owns :
    {A : Type 0} (key : A → ℕ) (doc : ℕ) (rows : List ParaRow) (xs : List A)
    → select (λ x. not (member (key x) (para_ids doc rows))) xs
      ≡ select (λ x. not (owns doc rows (key x))) xs
select-owns {A} key doc rows xs = select-congr _ _ xs (same xs)
  where
    same :
        (ys : List A)
        → All (λ x. not (member (key x) (para_ids doc rows)) ≡ not (owns doc rows (key x))) ys
    same [] = tt
    same (y ∷ ys) = (ap not (member-owns doc (key y) rows), same ys)

module _ {Blob : Type 0} where
  pub purge-paragraphs :
      (doc : ℕ) (db : Db Blob)
      → (purge doc db).paragraphs ≡ select (λ p. not (of_doc doc p)) db.paragraphs
  unfolding purge delete_fts delete_vec delete_paragraphs delete_doc_tags
  purge-paragraphs doc db = refl

  pub purge-IsIndexed : (doc : ℕ) (db : Db Blob) → IsIndexed db → IsIndexed (purge doc db)
  unfolding purge delete_fts delete_vec delete_paragraphs delete_doc_tags
  purge-IsIndexed doc db w = record {
    same_fts =
        ap (select (λ r. not (member r.rowid (para_ids doc db.paragraphs)))) w.same_fts
        ∙ (select-map _ fts_row db.paragraphs ∙ ap (map fts_row) (kept doc db.paragraphs w.nodup));
    same_vec =
        sym (select-map (λ n. not (member n (para_ids doc db.paragraphs))) (λ v. v.rowid) db.vec)
        ∙ (ap (select (λ n. not (member n (para_ids doc db.paragraphs)))) w.same_vec
            ∙ (select-map _ (λ p. p.id) db.paragraphs
                ∙ ap ids_of (kept doc db.paragraphs w.nodup)));
    nodup = select-IsNodup _ db.paragraphs w.nodup;
  }
