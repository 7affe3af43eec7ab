-- ===== src/Pools/Lsp.antt =====
-- lspPool: leases, idle timers and the closing of servers, as a state machine over events.
pub mod Sound
pub mod Closing
use ragrep.Common.{
  ℕ, suc, zero, ◌+◌, ◌-◌, ◌%◌, ◌^◌, Text, text_eq, Bool, true, false, ◌&&◌, ◌==◌, List, [], ◌∷◌,
  ◌++◌, map, find, ltb, length, Option, none, some, if◌then◌else◌, Result, ok, err,
}

pub record LspPoolKey : Type 0 where
  pub root : Text
  pub language : Text

-- An entry and the server made with it; `id` stands for the pointers to both. `live` says that the
-- map `entries` holds the entry under its key, and `closes` counts the calls of the server's `close`.
pub record LspPoolEntry : Type 0 where
  pub id : ℕ
  pub key : LspPoolKey
  pub live : Bool
  pub leases : ℕ
  pub timer : Bool
  pub timer_generation : ℕ
  pub closes : ℕ

-- Every entry that was ever made, and whether the pool is closed.
pub record LspPool : Type 0 where
  pub heap : List LspPoolEntry
  pub closed : Bool

pub data PoolError (E : Type 0) : Type 0 where
  pool_closed : PoolError E
  failed : E → PoolError E

unfoldable pub key_eq : LspPoolKey → LspPoolKey → Bool
key_eq a b = text_eq a.root b.root && text_eq a.language b.language

-- `p.entries[key]`.
unfoldable pub entry_at : LspPoolKey → LspPool → Option LspPoolEntry
unfolding key_eq
entry_at key p = find (λ e. e.live && key_eq e.key key) p.heap

-- A change of the fields of `*entry`.
unfoldable pub modify : ℕ → (LspPoolEntry → LspPoolEntry) → LspPool → LspPool
modify id change p = record p { heap = map (λ e. if e.id == id then change e else e) p.heap }

abbrev pub lease : LspPoolEntry → LspPoolEntry
lease e = record e { timer = false; leases = e.leases + 1 }

abbrev pub new_entry : ℕ → LspPoolKey → LspPoolEntry
new_entry id key = record {
  id = id;
  key = key;
  live = true;
  leases = 1;
  timer = false;
  timer_generation = 0;
  closes = 0;
}

module _ {E : Type 0} where
  -- `ctx` is the error of the context, of `filepath.Abs` or of the wait for the lock, and `made`
  -- what the constructor returns when it is called.
  unfoldable pub acquire :
      Option E → Result {0, 0} E Unit → LspPoolKey → LspPool → LspPool × Result (PoolError E) ℕ
  unfolding entry_at modify
  acquire (some e) made key p = (p, err (PoolError.failed e))
  acquire none made key p =
      if p.closed then (p, err PoolError.pool_closed) else elim (entry_at key p) [
        | some e ↦ (modify e.id lease p, ok e.id)
        | none ↦ elim made [
          | err e ↦ (p, err (PoolError.failed e))
          | ok _ ↦
              (record p { heap = p.heap ++ new_entry (length p.heap) key ∷ [] }, ok (length p.heap))
        ]
      ]

-- `entry.leases--`, and the idle timer of the last lease.
unfoldable pub give_back : LspPoolEntry → LspPoolEntry
give_back e =
    if e.leases == 1
    then record e { leases = 0; timer = true; timer_generation = (e.timer_generation + 1) % 2 ^ 64 }
    else record e { leases = e.leases - 1 }

unfoldable pub release : LspPoolKey → ℕ → LspPool → LspPool
unfolding entry_at modify give_back
release key id p = elim (entry_at key p) [
  | none ↦ p
  | some e ↦ if e.id == id && ltb 0 e.leases then modify id give_back p else p
]

abbrev pub close_server : LspPoolEntry → LspPoolEntry
close_server e = record e { live = false; timer = false; closes = e.closes + 1 }

unfoldable pub close_idle : LspPoolKey → ℕ → ℕ → LspPool → LspPool
unfolding entry_at modify
close_idle key id generation p = elim (entry_at key p) [
  | none ↦ p
  | some e ↦
      if e.id == id && (e.leases == 0 && e.timer_generation == generation)
      then modify id close_server p
      else p
]

unfoldable pub close_all : LspPool → LspPool
close_all p =
    if p.closed
    then p
    else record { heap = map (λ e. if e.live then close_server e else e) p.heap; closed = true }

-- A call of the pool, of a release function, or of an idle timer, in the order in which they take
-- the lock. Any key, entry and generation may come at any time.
pub data Event (E : Type 0) : Type 0 where
  acquired : Option E → Result {0, 0} E Unit → LspPoolKey → Event E
  released : LspPoolKey → ℕ → Event E
  idled : LspPoolKey → ℕ → ℕ → Event E
  closed : Event E

unfoldable pub step : {E : Type 0} → LspPool → Event E → LspPool
unfolding acquire release close_idle close_all
step p (Event.acquired ctx made key) = (acquire ctx made key p).0
step p (Event.released key id) = release key id p
step p (Event.idled key id generation) = close_idle key id generation p
step p Event.closed = close_all p

-- `newLSPPool`.
abbrev pub new_pool : LspPool
new_pool = record { heap = []; closed = false }
