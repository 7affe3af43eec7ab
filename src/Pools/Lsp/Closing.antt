-- ===== src/Pools/Lsp/Closing.antt =====
-- resource_pool.go: how often lspPool closes each server.
use ragrep.Common.{
  ℕ, ap₂, ◌<◌, ◌≡◌, refl, sym, subst, inl, inr, Bool, true, false, Option, none, some, List, [],
  ◌∷◌, ◌++◌, map, map-append, length, length-append, for_each, All, All-append, All-map, In,
  IsNodup, IsNodup-snoc, if◌then◌else◌, Result, ok, err, arith,
}
use ragrep.Pools.Lsp.{
  LspPoolKey, LspPoolEntry, LspPool, PoolError, entry_at, modify, lease, new_entry, acquire,
  close_server, close_all, Event, step, new_pool,
}
use ragrep.Pools.Lsp.Sound.{
  ClosedOnce, ids, IsSound, release-IsSound, close_idle-IsSound, every, length-map, modify-IsSound,
  close_server-ClosedOnce,
}

add_entry-IsSound :
    (key : LspPoolKey) (p : LspPool)
    → p.closed ≡ false
    → IsSound p
    → IsSound (record p { heap = p.heap ++ new_entry (length p.heap) key ∷ [] })
add_entry-IsSound key p opened w =
    let n = length p.heap in
    let e = new_entry n key in
    let list = sym (map-append (λ x. x.id) p.heap (e ∷ [])) in
    let longer = length-append p.heap (e ∷ []) in
    record {
      distinct =
          subst IsNodup list
            (IsNodup-snoc (ids p.heap) n w.distinct (fresh (ids p.heap) n w.numbered));
      numbered = subst (All (λ m. m < length (p.heap ++ e ∷ []))) list (
          All-append _ (ids p.heap) (n ∷ [])
            (All-map _ _ (λ m h. omega (arith, h, longer)) (ids p.heap) w.numbered)
            (omega (arith, longer), tt));
      once = All-append _ p.heap (e ∷ []) w.once ((refl, λ h. cc (h, opened)), tt);
    }
  where
    fresh : (ns : List ℕ) (n : ℕ) → All (λ m. m < n) ns → ¬ (In n ns)
    fresh [] n a i = i
    fresh (m ∷ ns) n a (inl s) = omega (arith, a.0, s)
    fresh (m ∷ ns) n a (inr i) = fresh ns n a.1 i

module _ {E : Type 0} where
  abbrev SoundPair : LspPool × Result (PoolError E) ℕ → Type 0
  SoundPair r = IsSound r.0

  lease-IsSound :
      (made : Result {0, 0} E Unit) (key : LspPoolKey) (p : LspPool)
      → p.closed ≡ false
      → IsSound p
      → (o : Option LspPoolEntry) → entry_at key p ≡ o
      → (SoundPair (elim o [
        | some e ↦ (modify e.id lease p, ok e.id)
        | none ↦ elim made [
          | err e ↦ (p, err (PoolError.failed e))
          | ok _ ↦
              (record p { heap = p.heap ++ new_entry (length p.heap) key ∷ [] }, ok (length p.heap))
        ]
      ]))
  lease-IsSound made key p opened w (some e) h =
      modify-IsSound e.id lease p (λ x. refl) (every _ (λ x s c. c) p.heap) w
  lease-IsSound (err e) key p opened w none h = w
  lease-IsSound (ok u) key p opened w none h = add_entry-IsSound key p opened w

  pub acquire-IsSound :
      (ctx : Option E) (made : Result {0, 0} E Unit) (key : LspPoolKey) (p : LspPool)
      → IsSound p
      → IsSound (acquire ctx made key p).0
  unfolding acquire
  acquire-IsSound (some e) made key p w = w
  acquire-IsSound none made key p w = go p.closed refl
    where
      go :
          (b : Bool)
          → p.closed ≡ b
          → (SoundPair (
              if b then (p, err PoolError.pool_closed) else elim (entry_at key p) [
                | some e ↦ (modify e.id lease p, ok e.id)
                | none ↦ elim made [
                  | err e ↦ (p, err (PoolError.failed e))
                  | ok _ ↦ (
                    record p { heap = p.heap ++ new_entry (length p.heap) key ∷ [] },
                    ok (length p.heap),
                  )
                ]
              ]))
      go true c = w
      go false c = lease-IsSound made key p c w (entry_at key p) refl

shut : LspPoolEntry → LspPoolEntry
shut e = if e.live then close_server e else e

shut-ClosedOnce :
    (b : Bool) (e : LspPoolEntry) → ClosedOnce b e → ClosedOnce true (shut e) × ((shut e).id ≡ e.id)
unfolding shut
shut-ClosedOnce b e c = go e.live refl
  where
    go :
        (l : Bool)
        → e.live ≡ l
        → ClosedOnce true (if l then close_server e else e)
          × ((if l then close_server e else e).id ≡ e.id)
    go true h = (close_server-ClosedOnce b true e h c, refl)
    go false h = ((c.0, λ s. h), refl)

pub close_all-IsSound : (p : LspPool) → IsSound p → IsSound (close_all p)
unfolding close_all shut
close_all-IsSound p w = go p.closed
  where
    each :
        (es : List LspPoolEntry)
        → All (ClosedOnce p.closed) es
        → All (ClosedOnce true) (map shut es) × (ids (map shut es) ≡ ids es)
    each [] o = (tt, refl)
    each (e ∷ es) o =
        let one = shut-ClosedOnce p.closed e o.0 in
        let rest = each es o.1 in ((one.0, rest.0), ap₂ (λ n ns. n ∷ ns) one.1 rest.1)

    go :
        (b : Bool)
        → IsSound (
            if b then p else record {
              heap = map (λ e. if e.live then close_server e else e) p.heap;
              closed = true;
            })
    go true = w
    go false =
        let all = each p.heap w.once in
        record {
          distinct = subst IsNodup (sym all.1) w.distinct;
          numbered =
              subst (λ l. All (λ n. n < length (map shut p.heap)) l) (sym all.1)
                (subst (λ m. All (λ n. n < m) (ids p.heap)) (sym (length-map shut p.heap))
                  w.numbered);
          once = all.0;
        }

pub step-IsSound : {E : Type 0} (p : LspPool) (event : Event E) → IsSound p → IsSound (step p event)
unfolding step
step-IsSound p (Event.acquired ctx made key) w = acquire-IsSound ctx made key p w
step-IsSound p (Event.released key id) w = release-IsSound key id p w
step-IsSound p (Event.idled key id generation) w = close_idle-IsSound key id generation p w
step-IsSound p Event.closed w = close_all-IsSound p w

-- After any events, in any order, on a new pool: the ids of the entries are distinct, a server whose
-- entry stands in the map was never closed, every other server was closed exactly once, and when
-- the pool is closed no entry stands in the map.
pub step-ClosedOnce :
    {E : Type 0} (events : List (Event E))
    → (let p = for_each step new_pool events in
        IsNodup (ids p.heap) × All (ClosedOnce p.closed) p.heap)
step-ClosedOnce {E} events =
    let w = run events new_pool record { distinct = tt; numbered = tt; once = tt } in
    (w.distinct, w.once)
  where
    run : (es : List (Event E)) (p : LspPool) → IsSound p → IsSound (for_each step p es)
    run [] p w = w
    run (e ∷ es) p w = run es (step p e) (step-IsSound p e w)
