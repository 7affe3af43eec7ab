-- ===== src/Store/Search.antt =====
-- store.go: the searches for documents. What the text and vector indices answer is a parameter.
pub mod Tagged
use ragrep.Common.{
  ℕ, suc, zero, ◌+◌, Text, text_eq, codes, Bool, true, false, not, ◌&&◌, ◌||◌, ◌==◌, ltb, List, [],
  ◌∷◌, ◌++◌, map, select, find, take, length, is_empty, is_space, fields_func, join, Option, none,
  some, if◌then◌else◌, Result, ok, err, ◌>>=◌,
}
use ragrep.CodeStore.LiveKeys.{format_uint}
use ragrep.CodeStore.LiveSearch.{fts_query}
use ragrep.CodeStore.Ranking.{Floats, score_of, add_score, sort_by, ranks_before}
use ragrep.Store.Db.{Document, ParaRow, TagRow, Db}
use ragrep.Store.Frontmatter.{contains}
use ragrep.Store.Upsert.{DocError, Env}
use ragrep.Store.Query.{Hit, query}

-- The rows of the indices that match, the best first, and the weighted summands of the fusion,
-- `rrfTextWeight / float64(n)` and `rrfVecWeight / float64(n)`.
pub record DocIndices (F Blob : Type 0) : Type 0 where
  pub text_matches : Db Blob → Text → List ℕ
  pub nearest : Db Blob → Blob → List (ℕ × F)
  pub text_share : ℕ → F
  pub vec_share : ℕ → F
  -- The driver's error for a row that is not there.
  pub no_rows : DocError Text

unfoldable pub snippet : Text → Text
unfolding fields_func
snippet text =
    let s = join (codes " ") (fields_func is_space text) in
    if ltb 120 (length s) then take 120 s ++ codes "…" else s

-- `COUNT(DISTINCT tag)`.
unfoldable pub distinct_tags : List Text → List Text
unfolding contains
distinct_tags [] = []
distinct_tags (t ∷ tags) =
    let rest = distinct_tags tags in if contains t rest then rest else t ∷ rest

unfoldable pub tags_of_doc : ℕ → List TagRow → List Text
tags_of_doc doc rows = map (λ r. r.tag) (select (λ r. r.doc_id == doc) rows)

-- `tag IN (…) GROUP BY doc_id HAVING COUNT(DISTINCT tag)=?`, with the wanted tags.
unfoldable pub has_all_tags : List Text → List Text → Bool
unfolding contains distinct_tags
has_all_tags wanted tags =
    length (distinct_tags (select (λ t. contains t wanted) tags)) == length wanted

unfoldable pub para_of : ℕ → List ParaRow → Option ParaRow
para_of id = find (λ p. p.id == id)

-- Whether the paragraph passes the filter; `lower` is `strings.ToLower`.
unfoldable pub tag_filter : {Blob : Type 0} → (Text → Text) → List Text → Db Blob → ℕ → Bool
unfolding para_of has_all_tags tags_of_doc
tag_filter lower tags db id = if is_empty tags then true else elim (para_of id db.paragraphs) [
  | none ↦ false
  | some p ↦ has_all_tags (map lower tags) (tags_of_doc p.doc_id db.doc_tags)
]

unfoldable pub doc_of : ℕ → List Document → Option Document
doc_of id = find (λ d. d.id == id)

module _ {F Vector Blob : Type 0} (env : Env Text Vector Blob) (lower : Text → Text)
    (floats : Floats F) (indices : DocIndices F Blob) where
  unfoldable pub hit_for : List (ℕ × F) → ParaRow → Document → Hit F
  unfolding score_of format_uint snippet
  hit_for scores p d = record {
    doc = d.path;
    para = p.seq;
    lines = format_uint p.start_line ++ b'-' ∷ format_uint p.end_line;
    score = score_of floats p.id scores;
    snippet = snippet p.text;
    heading = p.heading;
    mtime = d.mtime;
    stale = false;
    body = [];
    body_truncated = false;
  }

  unfoldable pub found_para : List (ℕ × F) → Db Blob → ℕ → Result (DocError Text) (Hit F)
  unfolding para_of doc_of hit_for
  found_para scores db id = elim (para_of id db.paragraphs) [
    | none ↦ err indices.no_rows
    | some p ↦ elim (doc_of p.doc_id db.documents) [
      | none ↦ err indices.no_rows
      | some d ↦ ok (hit_for scores p d)
    ]
  ]

  unfoldable pub hits_by_para_ids :
      List (ℕ × F) → Db Blob → List ℕ → Result (DocError Text) (List (Hit F))
  unfolding query found_para
  hits_by_para_ids scores db [] = ok []
  hits_by_para_ids scores db (id ∷ ids) = query env db tt >>= (λ _.
      found_para scores db id
      >>= (λ hit. hits_by_para_ids scores db ids >>= (λ hits. ok (hit ∷ hits))))

  unfoldable pub search_text_ids : Text → ℕ → List Text → Db Blob → Result (DocError Text) (List ℕ)
  unfolding query tag_filter fts_query
  search_text_ids words k tags db =
      query env db
        (take k (select (tag_filter lower tags db) (indices.text_matches db (fts_query words))))

  unfoldable pub search_vector_ids :
      Vector → ℕ → List Text → Db Blob → Result (DocError Text) (List (ℕ × F))
  unfolding query tag_filter
  search_vector_ids vector k tags db = elim (env.serialize vector) [
    | err e ↦ err (DocError.failed e)
    | ok blob ↦
        query env db
          (take k (select (λ entry. tag_filter lower tags db entry.0) (indices.nearest db blob)))
  ]

  -- `1.0 / float64(r+1)` from a rank on.
  unfoldable pub text_scores : ℕ → List ℕ → List (ℕ × F)
  text_scores r [] = []
  text_scores r (id ∷ ids) = text_scores (suc r) ids ++ (id, floats.inverse (r + 1)) ∷ []

  unfoldable pub search_text :
      Text → ℕ → List Text → Db Blob → Result (DocError Text) (List (Hit F))
  unfolding search_text_ids text_scores hits_by_para_ids
  search_text words k tags db =
      search_text_ids words k tags db >>= (λ ids. hits_by_para_ids (text_scores 0 ids) db ids)

  unfoldable pub search_vector :
      Vector → ℕ → List Text → Db Blob → Result (DocError Text) (List (Hit F))
  unfolding search_vector_ids hits_by_para_ids
  search_vector vector k tags db = search_vector_ids vector k tags db >>= (λ near.
      hits_by_para_ids (map (λ entry. (entry.0, floats.closeness entry.1)) near) db
        (map (λ entry. entry.0) near))

  -- The inner loop of rrfMerge with the weight of its list.
  unfoldable pub add_weighted : (ℕ → F) → ℕ → List ℕ → List (ℕ × F) → List (ℕ × F)
  unfolding add_score
  add_weighted share r [] scores = scores
  add_weighted share r (id ∷ ids) scores =
      add_weighted share (suc r) ids (add_score floats id (share (60 + r + 1)) scores)

  unfoldable pub weighted_merge : List ℕ → List ℕ → List ℕ × List (ℕ × F)
  unfolding add_weighted sort_by ranks_before
  weighted_merge text_ids vec_ids =
      let scores =
        add_weighted indices.vec_share 0 vec_ids (add_weighted indices.text_share 0 text_ids []) in
      (sort_by (ranks_before floats scores) (map (λ entry. entry.0) scores), scores)

  unfoldable pub search_hybrid :
      Text → Vector → ℕ → List Text → Db Blob → Result (DocError Text) (List (Hit F))
  unfolding search_text_ids search_vector_ids weighted_merge hits_by_para_ids
  search_hybrid words vector k tags db = search_text_ids words 50 tags db >>= (λ text_ids.
      search_vector_ids vector 50 tags db >>= (λ near.
        let merged = weighted_merge text_ids (map (λ entry. entry.0) near) in
        hits_by_para_ids merged.1 db (take k merged.0)))
