-- ===== src/Store/Upsert/Removed.antt =====
-- Every way in which the deletion of a document can end.
use ragrep.Common.{
  select_key-IsNodup, unique_key, ℕ, ◌≡◌, ◌≢◌, refl, sym, ap, subst, ◌∙◌, Text, true, not, ◌==◌,
  ==_iff, Bool-cases, ◌⊎◌, Option, Option-cases, inl, inr, none, some, List, [], ◌∷◌, select, All,
  All-map, In, Result, ok, err, ◌>>=◌, >>=-eq-ok,
}
use ragrep.Store.Db.{
  Document, Db, find_doc, purge, delete_fts, delete_vec, delete_paragraphs, delete_doc_tags,
}
use ragrep.Store.Db.Purge.{owns, select-owns}
use ragrep.Store.Db.Find.{doc_ids, find_doc-some}
use ragrep.Store.Db.Lookup.{find_doc-select, find_doc-gone}
use ragrep.Store.Upsert.{DocError, Env, exec, purge_rows, drop_doc, commit, settle, delete_doc}
use ragrep.Store.Upsert.Rows.{exec-ok, purge_rows-ok, ok_inj}
use ragrep.Store.Upsert.Content.{IsConsistent, commit-ok}
use ragrep.Store.Upsert.Consistent.{purge-IsConsistent}

-- An owner that is not the deleted one is still there.
still_In :
    (id n : ℕ) (docs : List Document)
    → n ≢ id
    → In n (doc_ids docs)
    → In n (doc_ids (select (λ d. not (d.id == id)) docs))
unfolding select
still_In id n [] apart = λ i. i
still_In id n (x ∷ docs) apart = elim (Bool-cases (x.id == id)) [
  | inl e ↦ rw (e) (elim [
    | inl s ↦ absurd (apart (sym s ∙ (==_iff x.id id).0 e))
    | inr i ↦ still_In id n docs apart i
  ])
  | inr e ↦ rw (e) (elim [ inl s ↦ inl s | inr i ↦ inr (still_In id n docs apart i) ])
]

still_owned :
    {A : Type 0} (owner : A → ℕ) (id : ℕ) (docs : List Document) (xs : List A)
    → All (λ x. In (owner x) (doc_ids docs)) xs
    → All
        (λ x. In (owner x) (doc_ids (select (λ d. not (d.id == id)) docs)))
        (select (λ x. not (owner x == id)) xs)
unfolding select
still_owned owner id docs [] = λ h. tt
still_owned owner id docs (x ∷ xs) = elim (Bool-cases (owner x == id)) [
  | inl e ↦ rw (e) (λ h. still_owned owner id docs xs h.1)
  | inr e ↦ rw (e) (λ h. (
    still_In id (owner x) docs (λ s. cc (e, (==_iff (owner x) id).1 s)) h.0,
    still_owned owner id docs xs h.1,
  ))
]

module _ {Blob : Type 0} where
  drop_doc-IsConsistent :
      (id : ℕ) (db : Db Blob) → IsConsistent db → IsConsistent (drop_doc id (purge id db))
  unfolding purge delete_fts delete_vec delete_paragraphs delete_doc_tags
  drop_doc-IsConsistent id db w =
      let p = purge-IsConsistent id db w in
      record {
        indexed = record {
          same_fts = p.indexed.same_fts;
          same_vec = p.indexed.same_vec;
          nodup = p.indexed.nodup;
        };
        doc_ids = select_key-IsNodup (λ d. d.id) _ db.documents w.doc_ids;
        doc_paths = select_key-IsNodup (λ d. d.path) _ db.documents w.doc_paths;
        para_owners = still_owned (λ p. p.doc_id) id db.documents db.paragraphs w.para_owners;
        tag_owners = still_owned (λ t. t.doc_id) id db.documents db.doc_tags w.tag_owners;
      }

  -- The document and its rows are gone, and the other documents and rows are as they were.
  pub record IsRemoved (path : Text) (d : Document) (db t : Db Blob) : Type 0 where
    pub paragraphs : t.paragraphs ≡ select (λ p. not (p.doc_id == d.id)) db.paragraphs
    pub doc_tags : t.doc_tags ≡ select (λ r. not (r.doc_id == d.id)) db.doc_tags
    pub fts : t.fts ≡ select (λ r. not (owns d.id db.paragraphs r.rowid)) db.fts
    pub vec : t.vec ≡ select (λ v. not (owns d.id db.paragraphs v.rowid)) db.vec
    pub gone : find_doc path t.documents ≡ none
    pub others :
        (other : Text) → path ≢ other → find_doc other t.documents ≡ find_doc other db.documents
    pub consistent : IsConsistent t

  drop_doc-IsRemoved :
      (path : Text) (d : Document) (db : Db Blob)
      → IsConsistent db
      → find_doc path db.documents ≡ some d
      → IsRemoved path d db (drop_doc d.id (purge d.id db))
  unfolding purge delete_fts delete_vec delete_paragraphs delete_doc_tags
  drop_doc-IsRemoved path d db w found =
      let own = find_doc-some path db.documents found in
      record {
        paragraphs = refl;
        doc_tags = refl;
        fts = select-owns (λ r. r.rowid) d.id db.paragraphs db.fts;
        vec = select-owns (λ v. v.rowid) d.id db.paragraphs db.vec;
        gone = find_doc-gone path _ db.documents (
            All-map _ _
              (λ x e s. ap not ((==_iff x.id d.id).1 (ap (λ y. y.id) (e (s ∙ sym own.1)))))
              db.documents (unique_key (λ y. y.path) db.documents d w.doc_paths own.0));
        others = λ other apart. find_doc-select other _ db.documents (
            All-map _ _
              (λ x e s. away x (λ o. apart (sym own.1 ∙ (ap (λ y. y.path) (sym (e o)) ∙ s))))
              db.documents (unique_key (λ y. y.id) db.documents d w.doc_ids own.0));
        consistent = drop_doc-IsConsistent d.id db w;
      }
    where
      away : (x : Document) → ¬ (x.id ≡ d.id) → not (x.id == d.id) ≡ true
      away x n = elim (Bool-cases (x.id == d.id)) [
        | inl e ↦ absurd (n ((==_iff x.id d.id).0 e))
        | inr e ↦ rw (e) refl
      ]

module _ {E Vector Blob : Type 0} (env : Env E Vector Blob) where
  -- An error that the driver gave to a statement or to the commit.
  abbrev pub IsRaised : DocError E → Type 0
  IsRaised e =
      (x : E) × (u : Db Blob) × (e ≡ DocError.failed x)
      × ((env.fault u ≡ some x) ⊎ (env.commit_fault u ≡ some x))

  AllRaised : Result (DocError E) (Db Blob) → Type 0
  AllRaised r = (e : DocError E) → r ≡ err e → IsRaised e

  failed-IsRaised :
      (u v : Db Blob) (o : Option E)
      → ((x : E) → o ≡ some x → (env.fault u ≡ some x) ⊎ (env.commit_fault u ≡ some x))
      → (e : DocError E)
      → ◌≡◌ {A = Result (DocError E) (Db Blob)}
          (elim o [ some x ↦ err (DocError.failed x) | none ↦ ok v ])
          (err e)
      → IsRaised e
  failed-IsRaised u v none by e h = cc
  failed-IsRaised u v (some x) by e h = (x, u, cc, by x refl)

  exec-AllRaised :
      (first : Result (DocError E) (Db Blob)) (statement : Db Blob → Db Blob)
      → AllRaised first
      → AllRaised (first >>= exec env statement)
  unfolding exec AllRaised
  exec-AllRaised (err x) statement r e h = r e h
  exec-AllRaised (ok u) statement r e h =
      failed-IsRaised u (statement u) (env.fault u) (λ x k. inl k) e h

  commit-AllRaised :
      (first : Result (DocError E) (Db Blob)) → AllRaised first → AllRaised (first >>= commit env)
  unfolding commit AllRaised
  commit-AllRaised (err x) r e h = r e h
  commit-AllRaised (ok u) r e h = failed-IsRaised u u (env.commit_fault u) (λ x k. inr k) e h

  delete-AllRaised :
      (id : ℕ) (db : Db Blob)
      → AllRaised
          (exec env (λ t. t) db >>= purge_rows env id >>= exec env (drop_doc id) >>= commit env)
  unfolding purge_rows AllRaised
  delete-AllRaised id db =
      commit-AllRaised _ (exec-AllRaised _ (drop_doc id) (purged (exec env (λ t. t) db) begun))
    where
      begun : AllRaised (exec env (λ t. t) db)
      begun = exec-AllRaised (ok db) (λ t. t) (λ e h. cc)

      purged :
          (first : Result (DocError E) (Db Blob))
          → AllRaised first
          → AllRaised (first >>= purge_rows env id)
      purged (err x) r = r
      purged (ok u) r = exec-AllRaised _ (delete_doc_tags id) (
          exec-AllRaised _ (delete_paragraphs id)
            (exec-AllRaised _ (delete_vec id) (exec-AllRaised (ok u) (delete_fts id) (λ e h. cc))))

module _ {E Vector Blob : Type 0} (env : Env E Vector Blob) (path : Text) (db : Db Blob) where
  -- The ways in which a deletion can end: the query for the path fails, the path is not found, a
  -- later statement or the commit fails, or the document is removed.
  pub data Deletion : Db Blob × Result {0, 0} (DocError E) Unit → Type 0 where
    unread : (x : E) → env.fault db ≡ some x → Deletion (db, err (DocError.failed x))
    missing :
        env.fault db ≡ none
        → find_doc path db.documents ≡ none
        → Deletion (db, err DocError.not_found)
    rolled_back :
        (d : Document) (e : DocError E)
        → find_doc path db.documents ≡ some d
        → IsRaised env e
        → Deletion (db, err e)
    removed :
        (d : Document) (t : Db Blob)
        → find_doc path db.documents ≡ some d
        → IsRemoved path d db t
        → Deletion (t, ok tt)

  settle-Deletion :
      (d : Document) (r : Result (DocError E) (Db Blob))
      → find_doc path db.documents ≡ some d
      → AllRaised env r
      → ((t : Db Blob) → r ≡ ok t → Deletion (t, ok tt))
      → Deletion (settle env tt db r)
  unfolding settle AllRaised
  settle-Deletion d (ok t) found raised f = f t refl
  settle-Deletion d (err e) found raised f = Deletion.rolled_back d e found (raised e refl)

  found-Deletion :
      IsConsistent db
      → env.fault db ≡ none
      → (f : Option Document) → find_doc path db.documents ≡ f
      → Deletion (elim f [
        | none ↦ (db, err DocError.not_found)
        | some d ↦ settle env tt db (
            exec env (λ t. t) db
            >>= purge_rows env d.id
            >>= exec env (drop_doc d.id)
            >>= commit env)
      ])
  found-Deletion w up none found = Deletion.missing up found
  found-Deletion w up (some d) found =
      settle-Deletion d _ found (delete-AllRaised env d.id db) (λ t h.
        let begun = exec env (λ u. u) db in
        let two = exec-ok env (begun >>= purge_rows env d.id) (drop_doc d.id) (commit-ok env _ h) in
        let one = >>=-eq-ok begun (purge_rows env d.id) two.1 in
        let zero = exec-ok env (ok db) (λ u. u) one.1 in
        let same =
          two.2
          ∙ ap (drop_doc d.id) (
              purge_rows-ok env d.id one.0 one.2
              ∙ ap (purge d.id) (zero.2 ∙ ok_inj (sym zero.1))) in
        Deletion.removed d t found
          (subst (IsRemoved path d db) (sym same) (drop_doc-IsRemoved path d db w found)))

  -- The deletion of a document from consistent tables ends in one of four ways. The query for the
  -- path fails with the driver's error; or it works and finds no document, and the error says so; or
  -- there is one, and the driver gave the error to a later statement or to the commit: all three leave
  -- the tables as they were. Or there is no error, the document is gone with all its rows, the other
  -- documents and rows are as they were, and the tables are consistent.
  pub delete_doc-Deletion : IsConsistent db → Deletion (delete_doc env path db)
  unfolding delete_doc
  delete_doc-Deletion w = elim (Option-cases (env.fault db)) [
    | inl e ↦ rw (e, delete_doc) (found-Deletion w e (find_doc path db.documents) refl)
    | inr e ↦ rw (e.1, delete_doc) (Deletion.unread e.0 e.1)
  ]
