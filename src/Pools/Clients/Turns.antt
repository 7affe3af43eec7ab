-- ===== src/Pools/Clients/Turns.antt =====
-- resource_pool.go: what one turn does to the leases of an open lspPool.
use ragrep.Common.{
  ℕ, suc, zero, ◌+◌, ◌-◌, ◌<◌, ltb, ◌≡◌, ◌≢◌, refl, sym, ap, subst, ◌∙◌, inl, inr, true, ◌&&◌, ◌==◌,
  ==_iff, Bool-cases, none, some, text_eq_refl, List, [], ◌∷◌, ◌++◌, length, find-append, find-snoc,
  find_past-map, get_elem?, unique_key, All-append, All-map, In, if◌then◌else◌, arith,
}
use ragrep.Store.Db.Find.{In-map}
use ragrep.Pools.Lsp.{
  LspPoolKey, LspPoolEntry, LspPool, key_eq, entry_at, modify, lease, new_entry, give_back, release,
  close_server,
}
use ragrep.Pools.Lsp.Sound.{ids, IsSound, entry_at-live, every, give_back-same}
use ragrep.Pools.Clients.{Lease, remove}
use ragrep.Pools.Clients.Leases.{
  count, Held, IsLeased, IsKeeping, changed, modify-Held, modify-counted, count_self, count_other,
  count-remove, All-remove, count-In, count_none, All-In, All-each,
}

pub lease-IsLeased :
    (key : LspPoolKey) (p : LspPool) (ls : List Lease) (e : LspPoolEntry)
    → entry_at key p ≡ some e
    → IsLeased record { pool = p; leases = ls }
    → IsLeased
        record { pool = modify e.id lease p; leases = record { key = key; entry = e.id } ∷ ls }
unfolding modify
lease-IsLeased key p ls e found w =
    let keeps : IsKeeping lease = record {
      same_id = λ x. refl;
      same_key = λ x. refl;
      same_live = λ x. refl;
    } in
    let l : Lease = record { key = key; entry = e.id } in
    record {
      counted =
          modify-counted e.id lease ls (l ∷ ls) p.heap (λ x. refl)
            (every _
              (λ x s c.
                let more =
                  subst (λ n. count n (l ∷ ls) ≡ count n ls + 1) (sym s) (count_self key e.id ls) in
                omega (arith, c, more))
              p.heap)
            (every _ (λ x apart. count_other key e.id x.id ls apart) p.heap) w.counted;
      held = (
        modify-Held e.id lease p l keeps (e, found, refl),
        All-map _ _ (λ m h. modify-Held e.id lease p m keeps h) ls w.held,
      );
    }

key_eq_refl : (key : LspPoolKey) → key_eq key key ≡ true
unfolding key_eq
key_eq_refl key = rw (text_eq_refl key.root, text_eq_refl key.language) refl

pub add_entry-IsLeased :
    (key : LspPoolKey) (p : LspPool) (ls : List Lease)
    → entry_at key p ≡ none
    → IsSound p
    → IsLeased record { pool = p; leases = ls }
    → IsLeased record {
      pool = record p { heap = p.heap ++ new_entry (length p.heap) key ∷ [] };
      leases = record { key = key; entry = length p.heap } ∷ ls;
    }
unfolding entry_at
add_entry-IsLeased key p ls absent s w =
    let n = length p.heap in
    let older = λ (x : LspPoolEntry) (i : In x p.heap).
      All-In (λ m. m < n) (ids p.heap) s.numbered (In-map (λ e. e.id) x p.heap i) in
    let below =
      All-map (Held p) (λ m. m.entry < n)
        (λ m h. subst (λ k. k < n) h.2 (older h.0 (entry_at-live m.key p h.1).0)) ls w.held in
    record {
      counted =
          All-append _ p.heap (new_entry n key ∷ [])
            (All-each _ p.heap (λ x i.
              let at_least = older x i in
              let fewer = count_other key n x.id ls (λ e. omega (arith, e, at_least)) in
              All-In _ p.heap w.counted i ∙ sym fewer))
            (sym (count_self key n ls ∙ ap (λ k. k + 1) (count_none n ls below)), tt);
      held = (
        (new_entry n key, find-snoc _ p.heap (new_entry n key) absent (key_eq_refl key), refl),
        All-map _ _ (λ m h. (h.0, find-append _ p.heap (new_entry n key ∷ []) h.1, h.2)) ls w.held,
      );
    }

give_back-leases : (e : LspPoolEntry) → (give_back e).leases ≡ e.leases - 1
unfolding give_back
give_back-leases e = elim (Bool-cases (e.leases == 1)) [
  | inl h ↦ rw (h) (omega (arith, (==_iff e.leases 1).0 h))
  | inr h ↦ rw (h) refl
]

give_back-key : (e : LspPoolEntry) → (give_back e).key ≡ e.key
unfolding give_back
give_back-key e = elim (Bool-cases (e.leases == 1)) [ inl h ↦ rw (h) refl | inr h ↦ rw (h) refl ]

give_back-IsKeeping : IsKeeping give_back
give_back-IsKeeping = record {
  same_id = λ e. (give_back-same e).0;
  same_key = give_back-key;
  same_live = λ e. (give_back-same e).1;
}

lt→ltb : (a b : ℕ) → a < b → ltb a b ≡ true
lt→ltb a b h = ground arith

-- The entry of a lease is found, and has a lease to give back.
pub release-modify :
    (p : LspPool) (ls : List Lease) (l : Lease)
    → IsLeased record { pool = p; leases = ls }
    → In l ls
    → release l.key l.entry p ≡ modify l.entry give_back p
unfolding release
release-modify p ls l w i =
    let h = All-In (Held p) ls w.held i in
    let e = h.0 in
    let own = entry_at-live l.key p h.1 in
    let positive : 0 < e.leases =
      subst (λ n. 0 < n) (sym (All-In _ p.heap w.counted own.0 ∙ ap (λ n. count n ls) h.2))
        (count-In l ls i) in
    rw (h.1, release, (==_iff e.id l.entry).1 h.2, lt→ltb 0 e.leases positive) refl

pub get_elem?-In : {A : Type 0} (xs : List A) (n : ℕ) {x : A} → get_elem? xs n ≡ some x → In x xs
get_elem?-In [] n h = cc
get_elem?-In (y ∷ xs) zero h = inl (cc (h))
get_elem?-In (y ∷ xs) (suc n) h = inr (get_elem?-In xs n h)

fewer :
    (ls : List Lease) (n : ℕ) (l : Lease) (id held : ℕ)
    → get_elem? ls n ≡ some l
    → l.entry ≡ id
    → held ≡ count id ls
    → held - 1 ≡ count id (remove n ls)
fewer ls n l id held at s c =
    let less : count id ls ≡ 1 + count id (remove n ls) =
      subst (λ b. count id ls ≡ (if b then 1 else 0) + count id (remove n ls))
        ((==_iff l.entry id).1 s) (count-remove id n ls at) in
    omega (arith, c, less)

same_count :
    (ls : List Lease) (n : ℕ) (l : Lease) (id : ℕ)
    → get_elem? ls n ≡ some l
    → l.entry ≢ id
    → count id (remove n ls) ≡ count id ls
same_count ls n l id at apart = elim (Bool-cases (l.entry == id)) [
  | inl b ↦ absurd (apart ((==_iff l.entry id).0 b))
  | inr b ↦
      let less : count id ls ≡ 0 + count id (remove n ls) =
        subst (λ b. count id ls ≡ (if b then 1 else 0) + count id (remove n ls)) b
          (count-remove id n ls at) in
      omega (arith, less)
]

pub release-IsLeased :
    (p : LspPool) (ls : List Lease) (n : ℕ) (l : Lease)
    → get_elem? ls n ≡ some l
    → IsLeased record { pool = p; leases = ls }
    → IsLeased record { pool = modify l.entry give_back p; leases = remove n ls }
unfolding modify
release-IsLeased p ls n l at w = record {
  counted =
      modify-counted l.entry give_back ls (remove n ls) p.heap (λ e. (give_back-same e).0)
        (every _ (λ x s c. give_back-leases x ∙ fewer ls n l x.id x.leases at (sym s) c) p.heap)
        (every _ (λ x apart. same_count ls n l x.id at (λ s. apart (sym s))) p.heap) w.counted;
  held =
      All-map _ _ (λ m h. modify-Held l.entry give_back p m give_back-IsKeeping h) (remove n ls)
        (All-remove (Held p) n ls w.held);
}

pub idle-IsLeased :
    (key : LspPoolKey) (p : LspPool) (ls : List Lease) (e : LspPoolEntry)
    → entry_at key p ≡ some e
    → e.leases ≡ 0
    → IsSound p
    → IsLeased record { pool = p; leases = ls }
    → IsLeased record { pool = modify e.id close_server p; leases = ls }
unfolding modify entry_at
idle-IsLeased key p ls e found unused s w =
    let own = entry_at-live key p found in
    let unique = unique_key (λ y. y.id) p.heap e s.distinct own.0 in
    record {
      counted =
          modify-counted e.id close_server ls ls p.heap (λ x. refl) (every _ (λ x q c. c) p.heap)
            (every _ (λ x q. refl) p.heap) w.counted;
      held = All-each _ ls (λ m i.
          let h = All-In (Held p) ls w.held i in
          let away : ¬ (h.0.id ≡ e.id) = λ q.
            let none_left : count m.entry ls ≡ 0 =
              sym (All-In _ p.heap w.counted own.0 ∙ ap (λ k. count k ls) (sym q ∙ h.2)) ∙ unused in
            let some_left = count-In m ls i in omega (arith, none_left, some_left) in
          (
            h.0,
            find_past-map (λ x. x.live && key_eq x.key m.key) (changed e.id close_server) p.heap h.0
                (unmoved h.0 away) (every _ (λ x k. closed_out x m k) p.heap) h.1,
            h.2,
          ));
    }
  where
    unmoved : (x : LspPoolEntry) → ¬ (x.id ≡ e.id) → changed e.id close_server x ≡ x
    unmoved x q = elim (Bool-cases (x.id == e.id)) [
      | inl b ↦ absurd (q ((==_iff x.id e.id).0 b))
      | inr b ↦ rw (b) refl
    ]

    closed_out :
        (x : LspPoolEntry) (m : Lease)
        → ((changed e.id close_server x).live && key_eq (changed e.id close_server x).key m.key)
          ≡ true
        → changed e.id close_server x ≡ x
    closed_out x m = elim (Bool-cases (x.id == e.id)) [
      | inl b ↦ rw (b) (λ k. cc)
      | inr b ↦ rw (b) (λ k. refl)
    ]
