-- ===== src/Store/Query.antt =====
-- store.go: the lookups of a document, and the paragraph texts put into the leading hits.
pub mod Expand
use ragrep.Common.{
  ℕ, suc, zero, ◌+◌, ◌-◌, Text, text_eq, codes, Bool, true, false, ◌&&◌, ◌||◌, ◌==◌, ltb, leb, List,
  [], ◌∷◌, map, select, take, length, is_empty, join, Option, none, some, if◌then◌else◌, Result, ok,
  err, ◌>>=◌,
}
use ragrep.Store.Db.{Document, ParaRow, Db, find_doc}
use ragrep.Store.Upsert.{DocError, Env, exec, settle}

-- `F` are the floating-point numbers.
pub record Hit (F : Type 0) : Type 0 where
  pub doc : Text
  pub para : ℕ
  pub lines : Text
  pub score : F
  pub snippet : Text
  pub heading : Text
  pub mtime : ℕ
  pub stale : Bool
  pub body : Text
  pub body_truncated : Bool

-- `JOIN documents d ON d.id = p.doc_id WHERE d.path=?`; `id` is the primary key.
unfoldable pub owned_by : Text → List Document → ParaRow → Bool
owned_by path [] p = false
owned_by path (d ∷ docs) p = d.id == p.doc_id && text_eq d.path path || owned_by path docs p

unfoldable pub by_seq : ParaRow → List ParaRow → List ParaRow
by_seq p [] = p ∷ []
by_seq p (q ∷ rows) = let rest = by_seq p rows in if ltb q.seq p.seq then q ∷ rest else p ∷ q ∷ rows

-- `ORDER BY p.seq`.
unfoldable pub order_by_seq : List ParaRow → List ParaRow
unfolding by_seq
order_by_seq [] = []
order_by_seq (p ∷ rows) = by_seq p (order_by_seq rows)

module _ {E Vector Blob : Type 0} (env : Env E Vector Blob) where
  -- The answer to a query, or the driver's error.
  unfoldable pub query : {A : Type 0} → Db Blob → A → Result (DocError E) A
  query db answer = elim (env.fault db) [ some e ↦ err (DocError.failed e) | none ↦ ok answer ]

  unfoldable pub doc_hash : Text → Db Blob → Result (DocError E) Text
  unfolding query find_doc
  doc_hash path db = query db (elim (find_doc path db.documents) [ none ↦ [] | some d ↦ d.hash ])

  unfoldable pub get_doc : Text → Db Blob → Result (DocError E) Text
  unfolding query find_doc
  get_doc path db =
      query db (find_doc path db.documents)
      >>= (λ found. elim found [ none ↦ err DocError.not_found | some d ↦ ok d.content ])

  -- `UPDATE documents SET mtime=? WHERE path=?`.
  unfoldable pub touch_doc : Text → ℕ → Db Blob → Db Blob × Result {0, 0} (DocError E) Unit
  unfolding exec settle
  touch_doc path mtime db = settle env tt db (
      exec env
        (λ t. record t {
          documents =
              map (λ d. if text_eq d.path path then record d { mtime = mtime } else d) t.documents;
        })
        db)

  unfoldable pub list_paths : Db Blob → Result (DocError E) (List Text)
  unfolding query
  list_paths db = query db (map (λ d. d.path) db.documents)

  unfoldable pub get_paras : Text → ℕ → ℕ → Db Blob → Result (DocError E) Text
  unfolding query owned_by order_by_seq
  get_paras path seq context db =
      let rows = select (owned_by path db.documents) db.paragraphs in
      query db
        (order_by_seq (select (λ p. leb (seq - context) p.seq && leb p.seq (seq + context)) rows))
      >>= (λ parts.
          if is_empty parts
          then err DocError.not_found
          else query db (select (λ p. p.seq == seq) rows) >>= (λ asked.
            if is_empty asked
            then err DocError.not_found
            else ok (join (codes "\n\n") (map (λ p. p.text) parts))))

module _ {E F : Type 0} (get : Text → ℕ → Result {0, 0} E Text) where
  -- The loop over the first hits, of which `top` are left, with `used` runes of the budget spent.
  unfoldable pub expand_from : ℕ → ℕ → ℕ → List (Hit F) → Result {0, 0} E (List (Hit F))
  expand_from zero budget used hits = ok hits
  expand_from (suc top) budget used [] = ok []
  expand_from (suc top) budget used (h ∷ hits) = elim (get h.doc h.para) [
    | err e ↦ err e
    | ok body ↦
        let rest = expand_from top budget (used + length body) hits in
        if ltb (budget - used) (length body)
        then ok (record h { body = take (budget - used) body; body_truncated = true } ∷ hits)
        else rest >>= (λ more. ok (record h { body = body } ∷ more))
  ]

unfoldable pub expand_hit_bodies :
    {E F Vector Blob : Type 0}
    → Env E Vector Blob
    → Db Blob
    → List (Hit F)
    → ℕ
    → ℕ
    → Result (DocError E) (List (Hit F))
unfolding get_paras expand_from
expand_hit_bodies env db hits top budget =
    expand_from (λ doc para. get_paras env doc para 0 db) top budget 0 hits
