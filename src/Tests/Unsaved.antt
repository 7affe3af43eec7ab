-- ===== src/Tests/Unsaved.antt =====
-- Unsaved files at concrete inputs.
use ragrep.Common.{
  ℕ, ◌^◌, ◌<◌, ◌≡◌, ◌≢◌, refl, Text, codes, text_eq, true, false, none, some, [], length, find, ◌⊎◌,
  All, if◌then◌else◌, ok, err, arith,
}
use ragrep.CodeStore.{database}
use ragrep.CodeStore.Tables.{LiveFile, CodeDb}
use ragrep.CodeStore.Upsert.{CodeEnv}
use ragrep.CodeStore.LiveKeys.{live_key, parse_live_key}
use ragrep.CodeStore.LiveKeys.RoundTrip.{parse_live_key-live_key}
use ragrep.CodeStore.LiveFiles.{
  find_live, put_live_file, put_live_file_row, remove_live_file_if_hash,
}
use ragrep.CodeStore.LiveFiles.InStep.{SameSymbols}
use ragrep.CodeStore.LiveFiles.Outcome.{put_live_file_row-finally, put_live_file_row-IsLiveInStep}
use ragrep.CodeStore.LiveFiles.Rows.{IsLiveInStep}
use ragrep.CodeStore.LiveFiles.Removed.{remove_live_file_if_hash-finally}
use ragrep.CodeStore.Reachable.{empty_db}

abbrev env : CodeEnv ℕ ℕ
env = record {
  fault = λ db. none;
  unique_error = [];
  new_rowid = λ ids. length ids;
  serialize = λ v. ok v;
  embed = λ text. ok (length text);
}

abbrev same_path : Text → Text
same_path path = path

abbrev put_db : CodeDb ℕ
put_db = (put_live_file env same_path (codes "a.go") (codes "x") (codes "b") 1 empty_db).0

small : 1 < 2 ^ 64
small = omega arith

plain : All (λ d. d ≢ b':') (codes "x")
plain = (λ e. cc, tt)

key_text : live_key 12 (codes "x") (codes "a:b") ≡ codes "live:12:x:a:b"
unfolding live_key
key_text = refl

parse_live_key-live_key_example :
    parse_live_key (live_key 1 (codes "x") (codes "a:b")) ≡ some (1, codes "x", codes "a:b")
parse_live_key-live_key_example =
    parse_live_key-live_key 1 (codes "x") (codes "a:b") small plain refl refl

abbrev dirty : LiveFile
dirty = record {
  path = codes "a.go";
  hash = codes "x";
  body = codes "b";
  generation = 1;
  deleted = false;
}

put_live_file_row-finally_example :
    ((e : Text) × (put_live_file_row env same_path dirty empty_db ≡ (empty_db, err (database e))))
    ⊎ ((t : CodeDb ℕ) × (put_live_file_row env same_path dirty empty_db ≡ (t, ok tt))
        × ((p : Text)
            → find_live p t.live_files ≡ (
                if text_eq (codes "a.go") p
                then some dirty
                else find_live p (empty_db {Blob = ℕ}).live_files))
        × SameSymbols empty_db t)
put_live_file_row-finally_example = put_live_file_row-finally env same_path dirty empty_db

empty_db-IsLiveInStep : IsLiveInStep (empty_db {Blob = ℕ})
unfolding empty_db find_live find
empty_db-IsLiveInStep = record { paths = tt; fts = λ p. refl }

put_db-IsLiveInStep : IsLiveInStep put_db
unfolding put_live_file put_live_file_row
put_db-IsLiveInStep =
    put_live_file_row-IsLiveInStep env same_path dirty empty_db empty_db-IsLiveInStep

remove_live_file_if_hash-finally_example :
    (let r = remove_live_file_if_hash env same_path (codes "a.go") (codes "x") put_db in
      ((e : Text) × (r ≡ (put_db, err (database e))))
      ⊎ (((r ≡ (put_db, ok false))
            × ((file : LiveFile)
                → find_live (codes "a.go") put_db.live_files ≡ some file
                → (file.hash ≢ codes "x") ⊎ (file.deleted ≡ true)))
          ⊎ ((t : CodeDb ℕ) × (r ≡ (t, ok true))
              × ((file : LiveFile) × (find_live (codes "a.go") put_db.live_files ≡ some file)
                  × (file.hash ≡ codes "x")
                  × (file.deleted ≡ false))
              × ((p : Text)
                  → find_live p t.live_files
                    ≡ (if text_eq (codes "a.go") p then none else find_live p put_db.live_files))
              × ((p : Text)
                  → t.live_fts p ≡ (if text_eq (codes "a.go") p then [] else put_db.live_fts p))
              × SameSymbols put_db t)))
remove_live_file_if_hash-finally_example =
    remove_live_file_if_hash-finally env same_path (codes "a.go") (codes "x") put_db
      put_db-IsLiveInStep
