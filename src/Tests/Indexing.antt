-- ===== src/Tests/Indexing.antt =====
-- Runs of the document store on a database in memory, and the theorems about it at concrete inputs.
use ragrep.Common.{
  find, lines_of, trim_space, join, select, ◌≢◌, ℕ, ◌+◌, ◌≤◌, ◌≡◌, refl, Text, codes, text_eq, Bool,
  true, false, none, some, List, [], ◌∷◌, map, length, In, inl, inr, Result, ok, arith,
}
use ragrep.Store.Paras.{split_paras}
use ragrep.Store.Frontmatter.{indexed_paras, parse_tags, auto_tags}
use ragrep.Store.Db.{Document, Db, find_doc}
use ragrep.Store.Query.{Hit, get_paras, expand_hit_bodies}
use ragrep.Store.Query.Expand.{IsExpanded, expand_hit_bodies-IsExpanded}
use ragrep.Store.Upsert.{DocError, Env, upsert_doc_with_hash, delete_doc}
use ragrep.Store.Upsert.Rows.{IsFresh}
use ragrep.Store.Upsert.Content.{IsConsistent}
use ragrep.Store.Upsert.Outcome.{Outcome, upsert_doc_with_hash-Outcome}
use ragrep.Store.Upsert.Consistent.{upsert_doc_with_hash-IsConsistent}
use ragrep.Store.Upsert.Stored.{IsStored, upsert_doc_with_hash-IsStored}
use ragrep.Store.Upsert.Removed.{Deletion, delete_doc-Deletion}
use ragrep.Store.Upsert.Progress.{IsQuiet, upsert_doc_with_hash-Succeeds}

abbrev sum : List ℕ → ℕ
sum [] = 0
sum (n ∷ ns) = n + sum ns

In-sum : (n : ℕ) (ns : List ℕ) → In n ns → n ≤ sum ns
In-sum n [] i = absurd i
In-sum n (m ∷ ns) (inl e) = omega (arith, e)
In-sum n (m ∷ ns) (inr i) = omega (arith, In-sum n ns i)

-- The embedding of a text is its length.
abbrev env : Env ℕ ℕ ℕ
env = record {
  fault = λ db. none;
  new_rowid = λ ids. sum ids + 1;
  embed = λ words. ok (length words);
  serialize = λ v. ok v;
  canceled = none;
  commit_fault = λ db. none;
  lower = λ c. c;
}

env-IsFresh : IsFresh env.new_rowid
env-IsFresh ids i = omega (arith, In-sum (sum ids + 1) ids i)

env-IsQuiet : IsQuiet env
env-IsQuiet = record {
  fault = λ db. refl;
  embed = λ words. (length words, refl);
  serialize = λ v. (v, refl);
  canceled = refl;
  commit_fault = λ db. refl;
}

abbrev empty : Db ℕ
empty = record { documents = []; paragraphs = []; doc_tags = []; fts = []; vec = [] }

empty-IsConsistent : IsConsistent empty
empty-IsConsistent = record {
  indexed = record { same_fts = refl; same_vec = refl; nodup = tt };
  doc_ids = tt;
  doc_paths = tt;
  para_owners = tt;
  tag_owners = tt;
}

abbrev path : Text
path = codes "notes/a.md"

abbrev text : Text
text = codes "---\ntags: [x, md]\n---\n# A\n\nbody"

abbrev add : Db ℕ → Db ℕ × Result (DocError ℕ) Bool
add = upsert_doc_with_hash env path text 7 (codes "h1")

two_paragraphs : length (add empty).0.paragraphs ≡ 2
unfolding upsert_doc_with_hash find indexed_paras split_paras lines_of text_eq trim_space join
    parse_tags auto_tags
two_paragraphs = refl

three_tags : map (λ t. t.tag) (add empty).0.doc_tags ≡ codes "x" ∷ codes "md" ∷ codes "notes" ∷ []
unfolding upsert_doc_with_hash find indexed_paras split_paras lines_of text_eq trim_space join
    parse_tags auto_tags
three_tags = refl

second_time_unchanged : (add (add empty).0).1 ≡ ok false
unfolding upsert_doc_with_hash find indexed_paras split_paras lines_of text_eq trim_space join
    parse_tags auto_tags
second_time_unchanged = refl

deleted_is_empty : (delete_doc env path (add empty).0) ≡ (empty, ok tt)
unfolding upsert_doc_with_hash delete_doc find indexed_paras split_paras lines_of text_eq trim_space
    join parse_tags auto_tags select
deleted_is_empty = refl

abbrev newer : Text
newer = codes "# B\n\nother"

filled-IsConsistent : IsConsistent (add empty).0
filled-IsConsistent =
    upsert_doc_with_hash-IsConsistent env env-IsFresh path text 7 (codes "h1") empty
      empty-IsConsistent

upsert_doc_with_hash-Outcome_example :
    Outcome env path newer 8
      (codes "h2")
      (add empty).0
      (upsert_doc_with_hash env path newer 8 (codes "h2") (add empty).0)
upsert_doc_with_hash-Outcome_example =
    upsert_doc_with_hash-Outcome env path newer 8 (codes "h2") (add empty).0

upsert_doc_with_hash-IsConsistent_example :
    IsConsistent (upsert_doc_with_hash env path newer 8 (codes "h2") (add empty).0).0
upsert_doc_with_hash-IsConsistent_example =
    upsert_doc_with_hash-IsConsistent env env-IsFresh path newer 8 (codes "h2") (add empty).0
      filled-IsConsistent

replacing : (upsert_doc_with_hash env path newer 8 (codes "h2") (add empty).0).1 ≡ ok true
unfolding upsert_doc_with_hash find indexed_paras split_paras lines_of text_eq trim_space join
    parse_tags auto_tags
replacing = refl

upsert_doc_with_hash-IsStored_example :
    IsStored env path newer 8
      (codes "h2")
      (add empty).0
      (upsert_doc_with_hash env path newer 8 (codes "h2") (add empty).0).0
upsert_doc_with_hash-IsStored_example =
    upsert_doc_with_hash-IsStored env env-IsFresh path newer 8 (codes "h2") (add empty).0
      filled-IsConsistent replacing

delete_doc-Deletion_example : Deletion env path (add empty).0 (delete_doc env path (add empty).0)
delete_doc-Deletion_example = delete_doc-Deletion env path (add empty).0 filled-IsConsistent

no_document : (d : Document) → find_doc path [] ≡ some d → d.hash ≢ codes "h1"
unfolding find_doc find
no_document d found = cc

upsert_doc_with_hash-Succeeds_example : (add empty).1 ≡ ok true
upsert_doc_with_hash-Succeeds_example =
    upsert_doc_with_hash-Succeeds env env-IsQuiet path text 7 (codes "h1") empty no_document

-- Two hits on the document, and a budget that the second exceeds.
abbrev hit_at : ℕ → Hit ℕ
hit_at para = record {
  doc = path;
  para = para;
  lines = [];
  score = 0;
  snippet = [];
  heading = [];
  mtime = 7;
  stale = false;
  body = [];
  body_truncated = false;
}

abbrev two_hits : List (Hit ℕ)
two_hits = hit_at 0 ∷ hit_at 1 ∷ []

abbrev cut_hits : List (Hit ℕ)
cut_hits =
    record (hit_at 0) { body = codes "# A" }
    ∷ record (hit_at 1) { body = codes "bo"; body_truncated = true }
    ∷ []

expanding : expand_hit_bodies env (add empty).0 two_hits 2 5 ≡ ok cut_hits
unfolding expand_hit_bodies upsert_doc_with_hash find indexed_paras split_paras lines_of text_eq
    trim_space join parse_tags auto_tags select
expanding = refl

expand_hit_bodies-IsExpanded_example :
    IsExpanded (λ doc para. get_paras env doc para 0 (add empty).0) 2 5 two_hits cut_hits
expand_hit_bodies-IsExpanded_example =
    expand_hit_bodies-IsExpanded env (add empty).0 two_hits 2 5 (refl, (refl, tt)) expanding
