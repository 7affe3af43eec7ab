-- ===== src/Pools/Clients/Safety.antt =====
-- resource_pool.go: the servers of the leases of an open lspPool.
use ragrep.Common.{
  ℕ, ltb, ◌≡◌, refl, sym, subst, ◌∙◌, inl, inr, Bool, true, false, ◌&&◌, ◌==◌, ==_iff, Bool-cases,
  Option-cases, Option, none, some, List, [], ◌∷◌, ◌++◌, map, length, get_elem?, for_each, All,
  All-map, if◌then◌else◌, Result, ok, err, arith,
}
use ragrep.Pools.Lsp.{
  LspPoolKey, LspPoolEntry, LspPool, PoolError, entry_at, modify, lease, new_entry, acquire,
  release, close_server, close_idle, close_all, new_pool,
}
use ragrep.Pools.Lsp.Sound.{ClosedOnce, IsSound, entry_at-live, release-IsSound, close_idle-IsSound}
use ragrep.Pools.Lsp.Closing.{acquire-IsSound, close_all-IsSound}
use ragrep.Pools.Clients.{Lease, Clients, remove, Turn, hand_out, take_turn}
use ragrep.Pools.Clients.Leases.{IsLeased, All-In}
use ragrep.Pools.Clients.Turns.{
  lease-IsLeased, add_entry-IsLeased, release-modify, get_elem?-In, release-IsLeased, idle-IsLeased,
}

-- What holds of the pool and the leases after any turns.
record IsKept (c : Clients) : Type 0 where
  sound : IsSound c.pool
  leased : c.pool.closed ≡ false → IsLeased c

module _ {E : Type 0} where
  abbrev KeptPair : LspPoolKey → List Lease → LspPool × Result {0, 0} (PoolError E) ℕ → Type 0
  KeptPair key ls r = (let c = hand_out key ls r in IsLeased c)

  found-IsLeased :
      (made : Result {0, 0} E Unit) (key : LspPoolKey) (p : LspPool) (ls : List Lease)
      → IsSound p
      → IsLeased record { pool = p; leases = ls }
      → (o : Option LspPoolEntry) → entry_at key p ≡ o
      → KeptPair key ls (elim o [
        | some e ↦ (modify e.id lease p, ok e.id)
        | none ↦ elim made [
          | err e ↦ (p, err (PoolError.failed e))
          | ok _ ↦
              (record p { heap = p.heap ++ new_entry (length p.heap) key ∷ [] }, ok (length p.heap))
        ]
      ])
  unfolding hand_out
  found-IsLeased made key p ls s w (some e) h = lease-IsLeased key p ls e h w
  found-IsLeased (err e) key p ls s w none h = w
  found-IsLeased (ok u) key p ls s w none h = add_entry-IsLeased key p ls h s w

  acquire-IsKept :
      (ctx : Option E) (made : Result {0, 0} E Unit) (key : LspPoolKey) (c : Clients)
      → IsKept c
      → IsKept (hand_out key c.leases (acquire ctx made key c.pool))
  unfolding acquire hand_out
  acquire-IsKept (some e) made key c w = w
  acquire-IsKept none made key c w = record {
    sound = handed key c.leases _ (acquire-IsSound none made key c.pool w.sound);
    leased = go c.pool.closed refl;
  }
    where
      handed :
          (key : LspPoolKey) (ls : List Lease) (r : LspPool × Result {0, 0} (PoolError E) ℕ)
          → IsSound r.0
          → IsSound (hand_out key ls r).pool
      handed key ls (p, ok id) s = s
      handed key ls (p, err e) s = s

      go :
          (b : Bool)
          → c.pool.closed ≡ b
          → (let d = hand_out key c.leases (
                if b then (c.pool, err PoolError.pool_closed) else elim (entry_at key c.pool) [
                  | some e ↦ (modify e.id lease c.pool, ok e.id)
                  | none ↦ elim made [
                    | err e ↦ (c.pool, err (PoolError.failed e))
                    | ok _ ↦ (
                      record c.pool {
                        heap = c.pool.heap ++ new_entry (length c.pool.heap) key ∷ [];
                      },
                      ok (length c.pool.heap),
                    )
                  ]
                ]) in
              d.pool.closed ≡ false → IsLeased d)
      go true shut opened = w.leased opened
      go false opened _ =
          found-IsLeased made key c.pool c.leases w.sound (w.leased opened) (entry_at key c.pool)
            refl

release-closed : (key : LspPoolKey) (id : ℕ) (p : LspPool) → (release key id p).closed ≡ p.closed
unfolding release modify
release-closed key id p = elim (Option-cases (entry_at key p)) [
  | inl h ↦ rw (h, release) refl
  | inr h ↦ elim (Bool-cases (h.0.id == id && ltb 0 h.0.leases)) [
    | inl b ↦ rw (h.1, release, b) refl
    | inr b ↦ rw (h.1, release, b) refl
  ]
]

released-IsKept :
    (c : Clients) (n : ℕ) (l : Lease)
    → get_elem? c.leases n ≡ some l
    → IsKept c
    → IsKept record { pool = release l.key l.entry c.pool; leases = remove n c.leases }
released-IsKept c n l at w = record {
  sound = release-IsSound l.key l.entry c.pool w.sound;
  leased = λ h.
      let leased = w.leased (sym (release-closed l.key l.entry c.pool) ∙ h) in
      subst (λ p. IsLeased record { pool = p; leases = remove n c.leases })
        (sym (release-modify c.pool c.leases l leased (get_elem?-In c.leases n at)))
        (release-IsLeased c.pool c.leases n l at leased);
}

idle_found :
    (key : LspPoolKey) (id generation : ℕ) (p : LspPool) (ls : List Lease) (e : LspPoolEntry)
    → entry_at key p ≡ some e
    → IsSound p
    → (p.closed ≡ false → IsLeased record { pool = p; leases = ls })
    → (b : Bool) → (e.id == id && (e.leases == 0 && e.timer_generation == generation)) ≡ b
    → (let q = if b then modify id close_server p else p in
        q.closed ≡ false → IsLeased record { pool = q; leases = ls })
unfolding modify
idle_found key id generation p ls e found s w false c = w
idle_found key id generation p ls e found s w true c = λ h.
    let tested : ((e.id == id) ≡ true) × ((e.leases == 0) ≡ true) = ground (arith, c) in
    subst (λ n. IsLeased record { pool = modify n close_server p; leases = ls })
      ((==_iff e.id id).0 tested.0)
      (idle-IsLeased key p ls e found ((==_iff e.leases 0).0 tested.1) s (w h))

idled-IsKept :
    (c : Clients) (key : LspPoolKey) (id generation : ℕ)
    → IsKept c
    → IsKept (record c { pool = close_idle key id generation c.pool })
unfolding close_idle
idled-IsKept c key id generation w = record {
  sound = close_idle-IsSound key id generation c.pool w.sound;
  leased = go (entry_at key c.pool) refl;
}
  where
    go :
        (o : Option LspPoolEntry)
        → entry_at key c.pool ≡ o
        → (let p : LspPool = elim o [
          | none ↦ c.pool
          | some e ↦
              if e.id == id && (e.leases == 0 && e.timer_generation == generation)
              then modify id close_server c.pool
              else c.pool
        ] in
            p.closed ≡ false → IsLeased record { pool = p; leases = c.leases })
    go none h = w.leased
    go (some e) h = idle_found key id generation c.pool c.leases e h w.sound w.leased _ refl

close_all-closed : (p : LspPool) → (close_all p).closed ≡ true
unfolding close_all
close_all-closed p = go p.closed refl
  where
    go :
        (b : Bool)
        → p.closed ≡ b
        → (let q : LspPool = if b then p else record {
          heap = map (λ e. if e.live then close_server e else e) p.heap;
          closed = true;
        } in
            q.closed ≡ true)
    go true h = h
    go false h = refl

closed-IsKept : (c : Clients) → IsKept c → IsKept (record c { pool = close_all c.pool })
closed-IsKept c w = record {
  sound = close_all-IsSound c.pool w.sound;
  leased = λ h. cc (h, close_all-closed c.pool);
}

turn-IsKept : {E : Type 0} (c : Clients) (turn : Turn E) → IsKept c → IsKept (take_turn c turn)
unfolding take_turn
turn-IsKept c (Turn.acquires ctx made key) w = acquire-IsKept ctx made key c w
turn-IsKept c (Turn.releases n) w = go (get_elem? c.leases n) refl
  where
    go :
        (o : Option Lease)
        → get_elem? c.leases n ≡ o
        → IsKept (elim o [
          | none ↦ c
          | some l ↦ record { pool = release l.key l.entry c.pool; leases = remove n c.leases }
        ])
    go none h = w
    go (some l) h = released-IsKept c n l h w
turn-IsKept c (Turn.idles key id generation) w = idled-IsKept c key id generation w
turn-IsKept c Turn.closes w = closed-IsKept c w

-- A lease has its own server: the map holds the entry it captured, and the server was not closed.
abbrev pub HasServer : LspPool → Lease → Type 0
HasServer p l = (e : LspPoolEntry) × (entry_at l.key p ≡ some e) × (e.id ≡ l.entry) × (e.closes ≡ 0)

-- After any turns of callers, release functions, idle timers and Close, in any order, on a new pool:
-- if the pool is still open, the map holds the entry of every lease that was not given back, under
-- the lease's key, and its server was not closed.
pub take_turn-HasServer :
    {E : Type 0} (turns : List (Turn E))
    → (let c = for_each take_turn record { pool = new_pool; leases = [] } turns in
        c.pool.closed ≡ false → All (HasServer c.pool) c.leases)
take_turn-HasServer {E} turns = λ opened.
    let w =
      run turns record { pool = new_pool; leases = [] }
        record {
          sound = record { distinct = tt; numbered = tt; once = tt };
          leased = λ h. record { counted = tt; held = tt };
        } in
    let c = for_each take_turn record { pool = new_pool; leases = [] } turns in
    All-map _ _
      (λ l h.
        let own = entry_at-live l.key c.pool h.1 in
        let once = All-In (ClosedOnce c.pool.closed) c.pool.heap w.sound.once own.0 in
        (h.0, h.1, h.2, once.0 ∙ (rw (own.1) refl)))
      c.leases (w.leased opened).held
  where
    run : (ts : List (Turn E)) (c : Clients) → IsKept c → IsKept (for_each take_turn c ts)
    run [] c w = w
    run (t ∷ ts) c w = run ts (take_turn c t) (turn-IsKept c t w)
