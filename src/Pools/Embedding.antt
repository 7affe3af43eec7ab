-- ===== src/Pools/Embedding.antt =====
-- embeddingPool: one embedder, made at its first use and closed when no call runs in it.
pub mod Lifetime
use ragrep.Common.{
  ℕ, ◌+◌, Bool, true, false, ◌&&◌, ◌==◌, Option, none, some, if◌then◌else◌, Result, ok, err,
}
use ragrep.Pools.Lsp.{PoolError}

-- `embedder` holds the number of an embedder, and `running` that of the call that holds `mu`, which
-- is free at `none`. `made` and `closes` count the embedders made and the calls of their `Close`.
pub record EmbeddingPool : Type 0 where
  pub embedder : Option ℕ
  pub closed : Bool
  pub active : Bool
  pub running : Option ℕ
  pub made : ℕ
  pub closes : ℕ

abbrev pub start : ℕ → EmbeddingPool → EmbeddingPool
start n p = record p { embedder = some n; active = true; running = some n }

module _ {E : Type 0} where
  -- `Embed` with the lock, up to the start of its goroutine.
  unfoldable pub begin_locked :
      Result {0, 0} E Unit → EmbeddingPool → EmbeddingPool × Result (PoolError E) ℕ
  begin_locked constructed p =
      if p.closed then (p, err PoolError.pool_closed) else elim p.embedder [
        | some n ↦ (start n p, ok n)
        | none ↦ elim constructed [
          | err e ↦ (p, err (PoolError.failed e))
          | ok _ ↦ (start p.made (record p { made = p.made + 1 }), ok p.made)
        ]
      ]

  -- `Embed`. `ctx` is the error of the context, before the wait for the lock or in it; while another
  -- call holds the lock, the call waits.
  unfoldable pub begin :
      Option E
      → Result {0, 0} E Unit
      → EmbeddingPool
      → EmbeddingPool × Option (Result (PoolError E) ℕ)
  unfolding begin_locked
  begin (some e) constructed p = (p, some (err (PoolError.failed e)))
  begin none constructed p =
      if p.closed then (p, some (err PoolError.pool_closed)) else elim p.running [
        | some n ↦ (p, none)
        | none ↦ let r = begin_locked constructed p in (r.0, some r.1)
      ]

-- `p.embedder == embedder`.
unfoldable pub holds : Option ℕ → ℕ → Bool
holds none n = false
holds (some m) n = m == n

-- The goroutine, once the embedder has answered.
unfoldable pub finish : EmbeddingPool → EmbeddingPool
unfolding holds
finish p = elim p.running [
  | none ↦ p
  | some n ↦
      if p.closed && holds p.embedder n
      then record p { active = false; running = none; embedder = none; closes = p.closes + 1 }
      else record p { active = false; running = none }
]

unfoldable pub close_pool : EmbeddingPool → EmbeddingPool
close_pool p =
    if p.closed then p else if p.active then record p { closed = true } else elim p.embedder [
      | none ↦ record p { closed = true }
      | some n ↦ record p { closed = true; embedder = none; closes = p.closes + 1 }
    ]

pub data PoolCall (E : Type 0) : Type 0 where
  embed : Option E → Result {0, 0} E Unit → PoolCall E
  answered : PoolCall E
  close : PoolCall E

unfoldable pub advance : {E : Type 0} → EmbeddingPool → PoolCall E → EmbeddingPool
unfolding begin finish close_pool
advance p (PoolCall.embed ctx constructed) = (begin ctx constructed p).0
advance p PoolCall.answered = finish p
advance p PoolCall.close = close_pool p

-- `newEmbeddingPool`.
abbrev pub new_embedding_pool : EmbeddingPool
new_embedding_pool = record {
  embedder = none;
  closed = false;
  active = false;
  running = none;
  made = 0;
  closes = 0;
}
