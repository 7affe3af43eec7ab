-- ===== src/CodeStore/LiveFiles/Rows.antt =====
-- The overlay as a function of the path, and what the statements do to it and to its text index.
use ragrep.Common.{
  ◌≡◌, ◌≢◌, refl, sym, ap, subst, ◌∙◌, Text, text_eq, text_eq_iff, text_eq_refl, true, false, not,
  ◌&&◌, List, [], ◌∷◌, map, select, find, find-In, unique_key, Option, none, some, inl, inr, All,
  In, IsNodup, Bool-cases, select-congr, All-map, if◌then◌else◌, arith,
}
use ragrep.CodeStore.Tables.{LiveFile, CodeDb}
use ragrep.CodeStore.LiveFiles.{find_live, take_out_text, put_live}

abbrev pub paths_of : List LiveFile → List Text
paths_of = map (λ f. f.path)

-- What the text index should hold for a path.
abbrev pub live_posted : Option LiveFile → List Text
live_posted none = []
live_posted (some f) = if f.deleted then [] else f.body ∷ []

-- A path has one row, and what is not deleted has one entry in the text index, of its body.
pub record IsLiveInStep {Blob : Type 0} (db : CodeDb Blob) : Type 0 where
  pub paths : IsNodup (paths_of db.live_files)
  pub fts : (p : Text) → db.live_fts p ≡ live_posted (find_live p db.live_files)

pub text_eq_cong : (a b p : Text) → text_eq a b ≡ true → text_eq a p ≡ text_eq b p
text_eq_cong a b p e = ap (λ x. text_eq x p) ((text_eq_iff a b).0 e)

pub find_live-put_live :
    (file : LiveFile) (p : Text) (files : List LiveFile)
    → find_live p (put_live file files)
      ≡ (if text_eq file.path p then some file else find_live p files)
unfolding find_live put_live find
find_live-put_live file p [] = refl
find_live-put_live file p (f ∷ files) = elim (Bool-cases (text_eq f.path file.path)) [
  | inl e ↦ ground (arith, e, text_eq_cong f.path file.path p e)
  | inr e ↦ elim (Bool-cases (text_eq f.path p)) [
    | inl k ↦ elim (Bool-cases (text_eq file.path p)) [
      | inl m ↦ absurd (clash ((text_eq_iff f.path p).0 k) ((text_eq_iff file.path p).0 m) e)
      | inr m ↦ rw (e, k, m) refl
    ]
    | inr k ↦ rw (e, k) (find_live-put_live file p files)
  ]
]
  where
    clash : f.path ≡ p → file.path ≡ p → text_eq f.path file.path ≡ false → ⊥
    clash k m e = cc (e, (text_eq_iff f.path file.path).1 (k ∙ sym m))

pub find_live-delete :
    (path p : Text) (files : List LiveFile)
    → find_live p (select (λ f. not (text_eq f.path path)) files)
      ≡ (if text_eq path p then none else find_live p files)
unfolding find_live find select
find_live-delete path p [] = ground arith
find_live-delete path p (f ∷ files) = elim (Bool-cases (text_eq f.path path)) [
  | inl e ↦ elim (Bool-cases (text_eq path p)) [
    | inl k ↦ rw (e, k) (find_live-delete path p files ∙ rw (k) refl)
    | inr k ↦
        rw (e, k, text_eq_cong f.path path p e ∙ k) (find_live-delete path p files ∙ rw (k) refl)
  ]
  | inr e ↦ elim (Bool-cases (text_eq f.path p)) [
    | inl k ↦ rw (e, k, apart ((text_eq_iff f.path p).0 k) e) refl
    | inr k ↦ rw (e, k) (find_live-delete path p files)
  ]
]
  where
    apart : f.path ≡ p → text_eq f.path path ≡ false → text_eq path p ≡ false
    apart k e = elim (Bool-cases (text_eq path p)) [
      | inl m ↦ cc (e, (text_eq_iff f.path path).1 (k ∙ sym ((text_eq_iff path p).0 m)))
      | inr m ↦ m
    ]

pub put_live-paths :
    (file : LiveFile) (files : List LiveFile)
    → IsNodup (paths_of files)
    → IsNodup (paths_of (put_live file files))
unfolding put_live
put_live-paths file [] d = (tt, tt)
put_live-paths file (f ∷ files) d = elim (Bool-cases (text_eq f.path file.path)) [
  | inl e ↦
      rw (e) (
        subst (λ x. All (λ y. y ≢ x) (paths_of files)) ((text_eq_iff f.path file.path).0 e) d.0,
        d.1,
      )
  | inr e ↦ rw (e) (others files d.0 e, put_live-paths file files d.1)
]
  where
    others :
        (xs : List LiveFile)
        → All (λ y. y ≢ f.path) (paths_of xs)
        → text_eq f.path file.path ≡ false
        → All (λ y. y ≢ f.path) (paths_of (put_live file xs))
    others [] a e = (λ s. cc (e, (text_eq_iff f.path file.path).1 (sym s)), tt)
    others (x ∷ xs) a e = elim (Bool-cases (text_eq x.path file.path)) [
      | inl k ↦ rw (k) (λ s. cc (e, (text_eq_iff f.path file.path).1 (sym s)), a.1)
      | inr k ↦ rw (k) (a.0, others xs a.1 e)
    ]

pub take_out_text_self : (s : Text) → take_out_text s (s ∷ []) ≡ []
unfolding take_out_text
take_out_text_self s = rw (text_eq_refl s) refl

pub find_live-path :
    (path : Text) (files : List LiveFile) (f : LiveFile)
    → find_live path files ≡ some f
    → In f files × (f.path ≡ path)
unfolding find_live
find_live-path path files f h =
    let found = find-In (λ x. text_eq x.path path) files h in
    (found.0, (text_eq_iff f.path path).0 found.1)

-- A matching tombstone is deleted as any row of its path is.
pub tombstone-select :
    (path hash : Text) (f : LiveFile) (files : List LiveFile)
    → IsNodup (paths_of files)
    → find_live path files ≡ some f
    → text_eq f.hash hash ≡ true
    → f.deleted ≡ true
    → select (λ x. not (text_eq x.path path && (text_eq x.hash hash && x.deleted))) files
      ≡ select (λ x. not (text_eq x.path path)) files
tombstone-select path hash f files d found same gone =
    select-congr (λ x. not (text_eq x.path path && (text_eq x.hash hash && x.deleted)))
      (λ x. not (text_eq x.path path)) files
      (All-map (λ x. x.path ≡ f.path → x ≡ f)
        (λ x.
          not (text_eq x.path path && (text_eq x.hash hash && x.deleted))
          ≡ not (text_eq x.path path))
        match files (unique_key (λ x. x.path) files f d (find_live-path path files f found).0))
  where
    match :
        (x : LiveFile)
        → (x.path ≡ f.path → x ≡ f)
        → not (text_eq x.path path && (text_eq x.hash hash && x.deleted))
          ≡ not (text_eq x.path path)
    match x only = elim (Bool-cases (text_eq x.path path)) [
      | inl e ↦
          let here =
            only ((text_eq_iff x.path path).0 e ∙ sym (find_live-path path files f found).1) in
          rw (e, here, same, gone) refl
      | inr e ↦ rw (e) refl
    ]
