-- ===== src/Pools/Clients.antt =====
-- lspPool with its callers: every `AcquireWithMetadata` hands out a release function that works once.
pub mod Leases
pub mod Turns
pub mod Safety
use ragrep.Common.{ℕ, zero, suc, List, [], ◌∷◌, Option, none, some, Result, ok, err, get_elem?}
use ragrep.Pools.Lsp.{LspPoolKey, LspPool, PoolError, acquire, release, close_idle, close_all}

-- A release function that was not called yet: the key and the entry that it captured.
pub record Lease : Type 0 where
  pub key : LspPoolKey
  pub entry : ℕ

pub record Clients : Type 0 where
  pub pool : LspPool
  pub leases : List Lease

unfoldable pub remove : {A : Type 0} → ℕ → List A → List A
remove n [] = []
remove zero (x ∷ xs) = xs
remove (suc n) (x ∷ xs) = x ∷ remove n xs

-- Who takes the lock next: a caller, the release function at a position, an idle timer with what it
-- captured, or `Close`.
pub data Turn (E : Type 0) : Type 0 where
  acquires : Option E → Result {0, 0} E Unit → LspPoolKey → Turn E
  releases : ℕ → Turn E
  idles : LspPoolKey → ℕ → ℕ → Turn E
  closes : Turn E

unfoldable pub hand_out :
    {E : Type 0} → LspPoolKey → List Lease → LspPool × Result {0, 0} (PoolError E) ℕ → Clients
hand_out key leases (p, ok id) = record {
  pool = p;
  leases = record { key = key; entry = id } ∷ leases;
}
hand_out key leases (p, err e) = record { pool = p; leases = leases }

unfoldable pub take_turn : {E : Type 0} → Clients → Turn E → Clients
unfolding acquire release close_idle close_all hand_out remove
take_turn c (Turn.acquires ctx made key) = hand_out key c.leases (acquire ctx made key c.pool)
take_turn c (Turn.releases n) = elim (get_elem? c.leases n) [
  | none ↦ c
  | some l ↦ record { pool = release l.key l.entry c.pool; leases = remove n c.leases }
]
take_turn c (Turn.idles key id generation) = record c { pool = close_idle key id generation c.pool }
take_turn c Turn.closes = record c { pool = close_all c.pool }
