-- ===== src/Pools/Clients/Leases.antt =====
-- resource_pool.go: the leases of an open lspPool, and their entries.
use ragrep.Common.{
  ℕ, suc, zero, ◌+◌, ◌<◌, ◌≡◌, ◌≢◌, refl, sym, ap, subst, ◌∙◌, inl, inr, ◌&&◌, ◌==◌, ==_iff,
  Bool-cases, some, List, [], ◌∷◌, map, find-map, get_elem?, All, In, if◌then◌else◌, arith,
}
use ragrep.Pools.Lsp.{LspPoolKey, LspPoolEntry, LspPool, key_eq, entry_at, modify}
use ragrep.Pools.Clients.{Lease, Clients, remove}

-- The leases of an entry that were not given back.
abbrev pub count : ℕ → List Lease → ℕ
count id [] = 0
count id (l ∷ ls) = (if l.entry == id then 1 else 0) + count id ls

abbrev pub Held : LspPool → Lease → Type 0
Held p l = (e : LspPoolEntry) × (entry_at l.key p ≡ some e) × (e.id ≡ l.entry)

pub record IsLeased (c : Clients) : Type 0 where
  pub counted : All (λ e. e.leases ≡ count e.id c.leases) c.pool.heap
  pub held : All (Held c.pool) c.leases

-- A change of an entry that keeps its id, its key and its place in the map.
pub record IsKeeping (change : LspPoolEntry → LspPoolEntry) : Type 0 where
  pub same_id : (e : LspPoolEntry) → (change e).id ≡ e.id
  pub same_key : (e : LspPoolEntry) → (change e).key ≡ e.key
  pub same_live : (e : LspPoolEntry) → (change e).live ≡ e.live

abbrev pub changed : ℕ → (LspPoolEntry → LspPoolEntry) → LspPoolEntry → LspPoolEntry
changed id change e = if e.id == id then change e else e

pub modify-Held :
    (id : ℕ) (change : LspPoolEntry → LspPoolEntry) (p : LspPool) (l : Lease)
    → IsKeeping change
    → Held p l
    → Held (modify id change p) l
unfolding modify entry_at
modify-Held id change p l k h = (
  changed id change h.0,
  find-map (λ e. e.live && key_eq e.key l.key) (changed id change) p.heap (λ e. (seen e).0) h.1,
  (seen h.0).1 ∙ h.2,
)
  where
    seen :
        (e : LspPoolEntry)
        → (((changed id change e).live && key_eq (changed id change e).key l.key)
            ≡ (e.live && key_eq e.key l.key))
          × ((changed id change e).id ≡ e.id)
    seen e = elim (Bool-cases (e.id == id)) [
      | inl s ↦ rw (s) (rw (k.same_live e, k.same_key e) refl, k.same_id e)
      | inr s ↦ rw (s) (refl, refl)
    ]

-- The counts after a change of the entries with one id.
pub modify-counted :
    (id : ℕ) (change : LspPoolEntry → LspPoolEntry) (before after : List Lease)
    (es : List LspPoolEntry)
    → ((e : LspPoolEntry) → (change e).id ≡ e.id)
    → All (λ e. e.id ≡ id → e.leases ≡ count e.id before → (change e).leases ≡ count e.id after) es
    → All (λ e. e.id ≢ id → count e.id after ≡ count e.id before) es
    → All (λ e. e.leases ≡ count e.id before) es
    → All (λ e. e.leases ≡ count e.id after) (map (changed id change) es)
modify-counted id change before after [] same hit miss c = tt
modify-counted id change before after (e ∷ es) same hit miss c = elim (Bool-cases (e.id == id)) [
  | inl s ↦ rw (s) (
    hit.0 ((==_iff e.id id).0 s) c.0 ∙ ap (λ n. count n after) (sym (same e)),
    modify-counted id change before after es same hit.1 miss.1 c.1,
  )
  | inr s ↦ rw (s) (
    c.0 ∙ sym (miss.0 (λ q. cc (s, (==_iff e.id id).1 q))),
    modify-counted id change before after es same hit.1 miss.1 c.1,
  )
]

pub count_self :
    (key : LspPoolKey) (id : ℕ) (ls : List Lease)
    → count id (record { key = key; entry = id } ∷ ls) ≡ count id ls + 1
count_self key id ls = rw ((==_iff id id).1 refl) (omega arith)

pub count_other :
    (key : LspPoolKey) (id n : ℕ) (ls : List Lease)
    → n ≢ id
    → count n (record { key = key; entry = id } ∷ ls) ≡ count n ls
count_other key id n ls apart = elim (Bool-cases (id == n)) [
  | inl s ↦ absurd (apart (sym ((==_iff id n).0 s)))
  | inr s ↦ rw (s) (omega arith)
]

-- A release function that has been called is no lease any more.
pub count-remove :
    (id n : ℕ) (ls : List Lease) {l : Lease}
    → get_elem? ls n ≡ some l
    → count id ls ≡ (if l.entry == id then 1 else 0) + count id (remove n ls)
unfolding remove
count-remove id n [] = λ h. cc
count-remove id zero (l ∷ ls) =
    λ h. ap (λ m. (if m.entry == id then 1 else 0) + count id ls) (injective h)
  where
    injective : {x y : Lease} → some x ≡ some y → x ≡ y
    injective h = cc
count-remove id (suc n) (m ∷ ls) = λ h. omega (arith, count-remove id n ls h)

pub All-remove :
    {A : Type 0} (P : A → Type 0) (n : ℕ) (xs : List A) → All P xs → All P (remove n xs)
unfolding remove
All-remove P n [] a = tt
All-remove P zero (x ∷ xs) a = a.1
All-remove P (suc n) (x ∷ xs) a = (a.0, All-remove P n xs a.1)

pub All-get_elem? :
    {A : Type 0} (P : A → Type 0) (xs : List A) (n : ℕ) {x : A}
    → All P xs
    → get_elem? xs n ≡ some x
    → P x
All-get_elem? P [] n a h = cc
All-get_elem? P (y ∷ xs) zero a h = subst P (injective h) a.0
  where
    injective : {A : Type 0} {x y : A} → some x ≡ some y → x ≡ y
    injective h = cc
All-get_elem? P (y ∷ xs) (suc n) a h = All-get_elem? P xs n a.1 h

pub count-In : (l : Lease) (ls : List Lease) → In l ls → 0 < count l.entry ls
count-In l [] i = absurd i
count-In l (m ∷ ls) (inl e) = rw ((==_iff m.entry l.entry).1 (ap (λ x. x.entry) e)) (omega arith)
count-In l (m ∷ ls) (inr i) = omega (arith, count-In l ls i)

pub count_none : (n : ℕ) (ls : List Lease) → All (λ m. m.entry < n) ls → count n ls ≡ 0
count_none n [] a = refl
count_none n (m ∷ ls) a = elim (Bool-cases (m.entry == n)) [
  | inl s ↦ omega (arith, a.0, (==_iff m.entry n).0 s)
  | inr s ↦ rw (s) (omega (arith, count_none n ls a.1))
]

pub All-In : {A : Type 0} (P : A → Type 0) (xs : List A) {x : A} → All P xs → In x xs → P x
All-In P [] a i = absurd i
All-In P (y ∷ xs) a (inl e) = subst P e a.0
All-In P (y ∷ xs) a (inr i) = All-In P xs a.1 i

pub All-each : {A : Type 0} (P : A → Type 0) (xs : List A) → ((x : A) → In x xs → P x) → All P xs
All-each P [] f = tt
All-each P (x ∷ xs) f = (f x (inl refl), All-each P xs (λ y i. f y (inr i)))
