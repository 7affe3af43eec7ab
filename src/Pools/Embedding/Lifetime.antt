-- ===== src/Pools/Embedding/Lifetime.antt =====
-- resource_pool.go: the embedders of embeddingPool over its runs.
use ragrep.Common.{
  ℕ, ◌≤◌, ◌≡◌, refl, Bool, true, false, none, some, List, [], ◌∷◌, for_each, ok, err, arith,
}
use ragrep.Pools.Embedding.{
  EmbeddingPool, begin_locked, begin, holds, finish, close_pool, PoolCall, advance,
  new_embedding_pool,
}

-- The states that a pool can be in.
data State : EmbeddingPool → Type 0 where
  unused : State new_embedding_pool
  idle : State record {
    embedder = some 0;
    closed = false;
    active = false;
    running = none;
    made = 1;
    closes = 0;
  }
  busy :
      (b : Bool)
      → State record {
        embedder = some 0;
        closed = b;
        active = true;
        running = some 0;
        made = 1;
        closes = 0;
      }
  never_made : State record {
    embedder = none;
    closed = true;
    active = false;
    running = none;
    made = 0;
    closes = 0;
  }
  gone : State record {
    embedder = none;
    closed = true;
    active = false;
    running = none;
    made = 1;
    closes = 1;
  }

advance-State :
    {E : Type 0} (p : EmbeddingPool) (call : PoolCall E) → State p → State (advance p call)
unfolding advance begin begin_locked finish close_pool holds
advance-State _ (PoolCall.embed (some e) c) s = s
advance-State _ (PoolCall.embed none (err e)) State.unused = State.unused
advance-State _ (PoolCall.embed none (ok u)) State.unused = State.busy false
advance-State _ (PoolCall.embed none c) State.idle = State.busy false
advance-State _ (PoolCall.embed none c) (State.busy false) = State.busy false
advance-State _ (PoolCall.embed none c) (State.busy true) = State.busy true
advance-State _ (PoolCall.embed none c) State.never_made = State.never_made
advance-State _ (PoolCall.embed none c) State.gone = State.gone
advance-State _ PoolCall.answered State.unused = State.unused
advance-State _ PoolCall.answered State.idle = State.idle
advance-State _ PoolCall.answered (State.busy false) = State.idle
advance-State _ PoolCall.answered (State.busy true) = State.gone
advance-State _ PoolCall.answered State.never_made = State.never_made
advance-State _ PoolCall.answered State.gone = State.gone
advance-State _ PoolCall.close State.unused = State.never_made
advance-State _ PoolCall.close State.idle = State.gone
advance-State _ PoolCall.close (State.busy true) = State.busy true
advance-State _ PoolCall.close (State.busy false) = State.busy true
advance-State _ PoolCall.close State.never_made = State.never_made
advance-State _ PoolCall.close State.gone = State.gone

run-State :
    {E : Type 0} (calls : List (PoolCall E)) (p : EmbeddingPool)
    → State p
    → State (for_each advance p calls)
run-State [] p s = s
run-State (c ∷ calls) p s = run-State calls (advance p c) (advance-State p c s)

-- One embedder at most is made, the one that a running call uses is still the pool's and open, none
-- is closed while the pool is open, and a closed pool in which no call runs has closed what it made.
abbrev pub IsSafe : EmbeddingPool → Type 0
IsSafe p =
    (p.made ≤ 1)
    × ((n : ℕ) → p.running ≡ some n → (p.embedder ≡ some n) × (p.closes ≡ 0))
    × (p.closed ≡ false → p.closes ≡ 0)
    × (p.closed ≡ true → p.running ≡ none → p.closes ≡ p.made)

State-IsSafe : (p : EmbeddingPool) → State p → IsSafe p
State-IsSafe _ State.unused = (omega arith, λ n h. cc, λ h. refl, λ h r. cc)
State-IsSafe _ State.idle = (omega arith, λ n h. cc, λ h. refl, λ h r. cc)
State-IsSafe _ (State.busy b) = (omega arith, λ n h. (h, refl), λ h. refl, λ h r. cc)
State-IsSafe _ State.never_made = (omega arith, λ n h. cc, λ h. refl, λ h r. refl)
State-IsSafe _ State.gone = (omega arith, λ n h. cc, λ h. cc, λ h r. refl)

-- After any sequence of calls of Embed, answers of the running embedder and calls of Close on a new
-- pool: at most one embedder was made; the embedder in which a call runs is still the pool's and was
-- not closed; none was closed while the pool is open; and when the pool is closed and no call runs,
-- as many embedders were closed as were made.
pub advance-IsSafe :
    {E : Type 0} (calls : List (PoolCall E)) → IsSafe (for_each advance new_embedding_pool calls)
advance-IsSafe calls = State-IsSafe _ (run-State calls new_embedding_pool State.unused)
