-- ===== src/Store/Db/Find.antt =====
-- The row of a document, as its path finds it.
use ragrep.Common.{
  ap₂, ℕ, ◌≡◌, inl, inr, refl, sym, ap, ◌∙◌, ◌==◌, Text, text_eq, text_eq_iff, none, some, List, [],
  ◌∷◌, map, find, In, Bool-cases,
}
use ragrep.Store.Db.{Document, find_doc, update_doc, update_mtime}

abbrev pub doc_ids : List Document → List ℕ
doc_ids = map (λ d. d.id)

abbrev pub doc_paths : List Document → List Text
doc_paths = map (λ d. d.path)

pub find_doc-some :
    (path : Text) (docs : List Document) {d : Document}
    → find_doc path docs ≡ some d
    → In d docs × (d.path ≡ path)
unfolding find_doc find
find_doc-some path [] = λ h. cc
find_doc-some path (x ∷ docs) = elim (Bool-cases (text_eq x.path path)) [
  | inl e ↦
      rw (e) (λ h.
        (inl (some_inj h), ap (λ y. y.path) (sym (some_inj h)) ∙ (text_eq_iff x.path path).0 e))
  | inr e ↦ rw (e) (λ h. let rest = find_doc-some path docs h in (inr rest.0, rest.1))
]
  where
    some_inj : {x y : Document} → some x ≡ some y → x ≡ y
    some_inj h = cc

pub find_doc-none :
    (path : Text) (docs : List Document) → find_doc path docs ≡ none → ¬ (In path (doc_paths docs))
unfolding find_doc find
find_doc-none path [] = λ h i. i
find_doc-none path (x ∷ docs) = elim (Bool-cases (text_eq x.path path)) [
  | inl e ↦ rw (e) (λ h. cc)
  | inr e ↦ rw (e) (λ h. elim [
    | inl s ↦ cc (e, (text_eq_iff x.path path).1 s)
    | inr i ↦ find_doc-none path docs h i
  ])
]

pub In-map : {A B : Type 0} (f : A → B) (x : A) (xs : List A) → In x xs → In (f x) (map f xs)
In-map f x [] i = i
In-map f x (y ∷ xs) (inl e) = inl (ap f e)
In-map f x (y ∷ xs) (inr i) = inr (In-map f x xs i)

-- A change of rows that keeps two keys keeps their lists.
pub map_frame :
    {A B : Type 0} (key : A → B) (f : A → A) (xs : List A)
    → ((x : A) → key (f x) ≡ key x)
    → map key (map f xs) ≡ map key xs
map_frame key f [] same = refl
map_frame key f (x ∷ xs) same = ap₂ (λ k ks. k ∷ ks) (same x) (map_frame key f xs same)

pub update_doc-id :
    (id : ℕ) (content : Text) (mtime : ℕ) (hash : Text) (d : Document)
    → (update_doc id content mtime hash d).id ≡ d.id
unfolding update_doc
update_doc-id id content mtime hash d = elim (Bool-cases (d.id == id)) [
  | inl e ↦ rw (e) refl
  | inr e ↦ rw (e) refl
]

pub update_doc-path :
    (id : ℕ) (content : Text) (mtime : ℕ) (hash : Text) (d : Document)
    → (update_doc id content mtime hash d).path ≡ d.path
unfolding update_doc
update_doc-path id content mtime hash d = elim (Bool-cases (d.id == id)) [
  | inl e ↦ rw (e) refl
  | inr e ↦ rw (e) refl
]

pub update_mtime-id : (id mtime : ℕ) (d : Document) → (update_mtime id mtime d).id ≡ d.id
unfolding update_mtime
update_mtime-id id mtime d = elim (Bool-cases (d.id == id)) [
  | inl e ↦ rw (e) refl
  | inr e ↦ rw (e) refl
]

pub update_mtime-path : (id mtime : ℕ) (d : Document) → (update_mtime id mtime d).path ≡ d.path
unfolding update_mtime
update_mtime-path id mtime d = elim (Bool-cases (d.id == id)) [
  | inl e ↦ rw (e) refl
  | inr e ↦ rw (e) refl
]
