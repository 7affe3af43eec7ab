-- ===== src/Tests/Pooling.antt =====
-- Runs of the two pools.
use ragrep.Common.{
  ℕ, ◌≡◌, refl, text_eq, find, codes, none, List, [], ◌∷◌, for_each, All, IsNodup, false, map, ok,
}
use ragrep.Pools.Lsp.{LspPoolKey, Event, step, new_pool}
use ragrep.Pools.Lsp.Sound.{ids, ClosedOnce}
use ragrep.Pools.Lsp.Closing.{step-ClosedOnce}
use ragrep.Pools.Clients.{Clients, Turn, take_turn}
use ragrep.Pools.Clients.Safety.{HasServer, take_turn-HasServer}
use ragrep.Pools.Embedding.{PoolCall, advance, new_embedding_pool}
use ragrep.Pools.Embedding.Lifetime.{IsSafe, advance-IsSafe}

abbrev go_key : LspPoolKey
go_key = record { root = codes "/r"; language = codes "go" }

-- A lease is given back, the timer fires late, and the next use makes another server.
abbrev events : List (Event ℕ)
events =
    Event.acquired none (ok tt) go_key
    ∷ Event.released go_key 0
    ∷ Event.acquired none (ok tt) go_key
    ∷ Event.idled go_key 0 1
    ∷ Event.released go_key 0
    ∷ Event.idled go_key 0 2
    ∷ Event.acquired none (ok tt) go_key
    ∷ Event.closed
    ∷ []

closes_of_events : map (λ e. e.closes) (for_each step new_pool events).heap ≡ 1 ∷ 1 ∷ []
unfolding step text_eq find
closes_of_events = refl

step-ClosedOnce_example :
    (let p = for_each step new_pool events in
      IsNodup (ids p.heap) × All (ClosedOnce p.closed) p.heap)
step-ClosedOnce_example = step-ClosedOnce events

abbrev calls : List (PoolCall ℕ)
calls = PoolCall.embed none (ok tt) ∷ PoolCall.close ∷ PoolCall.answered ∷ []

advance-IsSafe_example : IsSafe (for_each advance new_embedding_pool calls)
advance-IsSafe_example = advance-IsSafe calls

-- The third lease comes after the server of the first two was closed for idling.
abbrev turns : List (Turn ℕ)
turns =
    Turn.acquires none (ok tt) go_key
    ∷ Turn.acquires none (ok tt) go_key
    ∷ Turn.releases 0
    ∷ Turn.releases 0
    ∷ Turn.idles go_key 0 1
    ∷ Turn.acquires none (ok tt) go_key
    ∷ Turn.idles go_key 1 0
    ∷ []

abbrev after_turns : Clients
after_turns = for_each take_turn record { pool = new_pool; leases = [] } turns

leased_entries : map (λ l. l.entry) after_turns.leases ≡ 1 ∷ []
unfolding take_turn text_eq find
leased_entries = refl

still_open : after_turns.pool.closed ≡ false
unfolding take_turn text_eq find
still_open = refl

take_turn-HasServer_example : All (HasServer after_turns.pool) after_turns.leases
take_turn-HasServer_example = take_turn-HasServer turns still_open
