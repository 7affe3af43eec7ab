-- ===== src/Pools/Lsp/Sound.antt =====
-- resource_pool.go: the entries of lspPool over its calls.
use ragrep.Common.{
  ℕ, suc, ap₂, ltb, ◌<◌, ◌≡◌, refl, sym, ap, subst, ◌∙◌, inl, inr, Bool, true, false, ◌&&◌, ◌==◌,
  ==_iff, Bool-cases, Option-cases, some, List, [], ◌∷◌, map, length, find-In, unique_key, All,
  All-map, In, IsNodup, if◌then◌else◌, arith,
}
use ragrep.Pools.Lsp.{
  LspPoolKey, LspPoolEntry, LspPool, key_eq, entry_at, modify, give_back, release, close_server,
  close_idle,
}

-- An entry of the map has an open server, an entry outside it one that was closed once.
abbrev pub ClosedOnce : Bool → LspPoolEntry → Type 0
ClosedOnce closed e = (e.closes ≡ (if e.live then 0 else 1)) × (closed ≡ true → e.live ≡ false)

abbrev pub ids : List LspPoolEntry → List ℕ
ids = map (λ e. e.id)

pub record IsSound (p : LspPool) : Type 0 where
  pub distinct : IsNodup (ids p.heap)
  pub numbered : All (λ n. n < length p.heap) (ids p.heap)
  pub once : All (ClosedOnce p.closed) p.heap

pub entry_at-live :
    (key : LspPoolKey) (p : LspPool) {e : LspPoolEntry}
    → entry_at key p ≡ some e
    → In e p.heap × (e.live ≡ true)
unfolding entry_at
entry_at-live key p {e} h =
    let found = find-In (λ x. x.live && key_eq x.key key) p.heap h in
    (found.0, ground (arith, found.1))

pub ids-modify :
    (id : ℕ) (change : LspPoolEntry → LspPoolEntry) (es : List LspPoolEntry)
    → ((e : LspPoolEntry) → (change e).id ≡ e.id)
    → ids (map (λ e. if e.id == id then change e else e) es) ≡ ids es
ids-modify id change [] same = refl
ids-modify id change (e ∷ es) same = elim (Bool-cases (e.id == id)) [
  | inl h ↦ rw (h) (ap₂ (λ n ns. n ∷ ns) (same e) (ids-modify id change es same))
  | inr h ↦ rw (h) (ap (λ ns. e.id ∷ ns) (ids-modify id change es same))
]

pub length-map : {A B : Type 0} (f : A → B) (xs : List A) → length (map f xs) ≡ length xs
length-map f [] = refl
length-map f (x ∷ xs) = ap suc (length-map f xs)

pub modify-IsSound :
    (id : ℕ) (change : LspPoolEntry → LspPoolEntry) (p : LspPool)
    → ((e : LspPoolEntry) → (change e).id ≡ e.id)
    → All (λ e. e.id ≡ id → ClosedOnce p.closed e → ClosedOnce p.closed (change e)) p.heap
    → IsSound p
    → IsSound (modify id change p)
unfolding modify
modify-IsSound id change p same good w = record {
  distinct = subst IsNodup (sym (ids-modify id change p.heap same)) w.distinct;
  numbered =
      subst (λ l. All (λ n. n < length (map (λ e. if e.id == id then change e else e) p.heap)) l)
        (sym (ids-modify id change p.heap same))
        (subst (λ m. All (λ n. n < m) (ids p.heap))
          (sym (length-map (λ e. if e.id == id then change e else e) p.heap)) w.numbered);
  once = go p.heap good w.once;
}
  where
    go :
        (es : List LspPoolEntry)
        → All (λ e. e.id ≡ id → ClosedOnce p.closed e → ClosedOnce p.closed (change e)) es
        → All (ClosedOnce p.closed) es
        → All (ClosedOnce p.closed) (map (λ e. if e.id == id then change e else e) es)
    go [] g o = tt
    go (e ∷ es) g o = elim (Bool-cases (e.id == id)) [
      | inl h ↦ rw (h) (g.0 ((==_iff e.id id).0 h) o.0, go es g.1 o.1)
      | inr h ↦ rw (h) (o.0, go es g.1 o.1)
    ]

pub every : {A : Type 0} (P : A → Type 0) → ((x : A) → P x) → (xs : List A) → All P xs
every P f [] = tt
every P f (x ∷ xs) = (f x, every P f xs)

pub give_back-same :
    (e : LspPoolEntry)
    → ((give_back e).id ≡ e.id) × ((give_back e).live ≡ e.live) × ((give_back e).closes ≡ e.closes)
unfolding give_back
give_back-same e = elim (Bool-cases (e.leases == 1)) [
  | inl h ↦ rw (h) (refl, refl, refl)
  | inr h ↦ rw (h) (refl, refl, refl)
]

give_back-ClosedOnce :
    (closed : Bool) (e : LspPoolEntry) → ClosedOnce closed e → ClosedOnce closed (give_back e)
give_back-ClosedOnce closed e c = let same = give_back-same e in rw (same.1, same.2) c

pub close_server-ClosedOnce :
    (before after : Bool) (e : LspPoolEntry)
    → e.live ≡ true
    → ClosedOnce before e
    → ClosedOnce after (close_server e)
close_server-ClosedOnce before after e live c =
    let open_before : e.closes ≡ 0 = c.0 ∙ (rw (live) refl) in
    (omega (arith, open_before), λ h. refl)

pub release-IsSound :
    (key : LspPoolKey) (id : ℕ) (p : LspPool) → IsSound p → IsSound (release key id p)
unfolding release
release-IsSound key id p w = elim (Option-cases (entry_at key p)) [
  | inl h ↦ rw (h, release) w
  | inr h ↦ elim (Bool-cases (h.0.id == id && ltb 0 h.0.leases)) [
    | inl c ↦
        rw (h.1, release, c)
          (modify-IsSound id give_back p (λ e. (give_back-same e).0)
            (every _ (λ e s. give_back-ClosedOnce p.closed e) p.heap) w)
    | inr c ↦ rw (h.1, release, c) w
  ]
]

pub close_idle-IsSound :
    (key : LspPoolKey) (id generation : ℕ) (p : LspPool)
    → IsSound p
    → IsSound (close_idle key id generation p)
unfolding close_idle
close_idle-IsSound key id generation p w = elim (Option-cases (entry_at key p)) [
  | inl h ↦ rw (h, close_idle) w
  | inr h ↦
      elim (Bool-cases (h.0.id == id && (h.0.leases == 0 && h.0.timer_generation == generation))) [
        | inl c ↦
            let own = entry_at-live key p h.1 in
            let same = λ (e : (h.0.id == id) ≡ true). (==_iff h.0.id id).0 e in
            rw (h.1, close_idle, c)
              (modify-IsSound id close_server p (λ e. refl)
                (All-map _ _
                  (λ x u s.
                    close_server-ClosedOnce p.closed p.closed x
                      (ap (λ y. y.live) (u (s ∙ sym (same (ground (arith, c))))) ∙ own.1))
                  p.heap (unique_key (λ y. y.id) p.heap h.0 w.distinct own.0))
                w)
        | inr c ↦ rw (h.1, close_idle, c) w
      ]
]
