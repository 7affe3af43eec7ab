-- ===== src/CodeStore/LiveSearch/Fetched.antt =====
-- symbols.go: GetLiveFile after PutLiveFile.
use ragrep.Common.{ℕ, Text, false, Result, ok, err}
use ragrep.CodeIndex.{Symbol}
use ragrep.CodeStore.{StoreError}
use ragrep.CodeStore.Tables.{LiveFile}
use ragrep.CodeStore.Upsert.{CodeEnv}

-- There is no error, and the predicate holds of the answer.
abbrev pub IsOk : (Symbol → Type 0) → Result StoreError Symbol → Type 0
IsOk P (ok s) = P s
IsOk P (err e) = ⊥

module _ {Vector Blob : Type 0} (env : CodeEnv Vector Blob) (to_slash : Text → Text) where
  abbrev given_file : Text → Text → Text → ℕ → LiveFile
  given_file path hash body generation = record {
    path = to_slash path;
    hash = hash;
    body = body;
    generation = generation;
    deleted = false;
  }
