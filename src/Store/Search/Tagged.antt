-- ===== src/Store/Search/Tagged.antt =====
-- The filter by tags, which counts.
use ragrep.Common.{
  ℕ, suc, ◌≤◌, ◌≡◌, ◌≢◌, refl, sym, ap, subst, ◌∙◌, ==_iff, ◌↔◌, inl, inr, Text, text_eq,
  text_eq_iff, text_eq_refl, Bool, Bool-cases, true, false, not, List, [], ◌∷◌, select, select-All,
  select-In, select-passes, In-select, length, All, In, IsNodup, arith,
}
use ragrep.Store.Frontmatter.{contains}
use ragrep.Store.Upsert.Tags.{contains_iff}
use ragrep.Store.Search.{distinct_tags, has_all_tags}

without : Text → List Text → List Text
without t = select (λ u. not (text_eq u t))

length-without : (t : Text) (ts : List Text) → length (without t ts) ≤ length ts
unfolding without select
length-without t [] = omega arith
length-without t (u ∷ ts) = ground (arith, length-without t ts)

without-shorter : (t : Text) (ts : List Text) → In t ts → suc (length (without t ts)) ≤ length ts
unfolding without select
without-shorter t [] i = absurd i
without-shorter t (u ∷ ts) (inl e) = rw (e, text_eq_refl t) (omega (arith, length-without t ts))
without-shorter t (u ∷ ts) (inr i) = ground (arith, length-without t ts, without-shorter t ts i)

In-without : (t u : Text) (ts : List Text) → In u ts → u ≢ t → In u (without t ts)
unfolding without
In-without t u ts i away = In-select (λ x. not (text_eq x t)) ts u i (apart (text_eq u t) refl)
  where
    apart : (b : Bool) → text_eq u t ≡ b → not b ≡ true
    apart true e = absurd (away ((text_eq_iff u t).0 e))
    apart false e = refl

All-not : (t u : Text) (ts : List Text) → All (λ y. y ≢ t) ts → In u ts → u ≢ t
All-not t u [] a i = absurd i
All-not t u (x ∷ ts) a (inl e) = λ s. a.0 (e ∙ s)
All-not t u (x ∷ ts) a (inr i) = All-not t u ts a.1 i

-- Distinct texts that stand in a list are no more than it has.
distinct-fewer :
    (ts us : List Text) → IsNodup ts → ((t : Text) → In t ts → In t us) → length ts ≤ length us
distinct-fewer [] us d sub = omega arith
distinct-fewer (t ∷ ts) us d sub =
    let less = without-shorter t us (sub t (inl refl)) in
    let rest =
      distinct-fewer ts (without t us) d.1
        (λ u i. In-without t u us (sub u (inr i)) (All-not t u ts d.0 i)) in
    omega (arith, less, rest)

All-away : (t : Text) (ts : List Text) → ((u : Text) → In u ts → u ≢ t) → All (λ y. y ≢ t) ts
All-away t [] away = tt
All-away t (u ∷ ts) away = (away u (inl refl), All-away t ts (λ v i. away v (inr i)))

without-IsNodup : (t : Text) (ts : List Text) → IsNodup ts → IsNodup (without t ts)
unfolding without select
without-IsNodup t [] d = tt
without-IsNodup t (u ∷ ts) d = elim (Bool-cases (text_eq u t)) [
  | inl e ↦ rw (e) (without-IsNodup t ts d.1)
  | inr e ↦
      rw (e) (select-All (λ y. y ≢ u) (λ x. not (text_eq x t)) ts d.0, without-IsNodup t ts d.1)
]

without-none : (t : Text) (ts : List Text) → All (λ y. y ≢ t) ts → length (without t ts) ≡ length ts
unfolding without select
without-none t [] a = refl
without-none t (u ∷ ts) a = elim (Bool-cases (text_eq u t)) [
  | inl e ↦ absurd (a.0 ((text_eq_iff u t).0 e))
  | inr e ↦ rw (e) (ap suc (without-none t ts a.1))
]

without-one : (t : Text) (ts : List Text) → IsNodup ts → length ts ≤ suc (length (without t ts))
unfolding without select
without-one t [] d = omega arith
without-one t (u ∷ ts) d = elim (Bool-cases (text_eq u t)) [
  | inl e ↦ rw (e) (
      let all = without-none t ts (subst (λ x. All (λ y. y ≢ x) ts) ((text_eq_iff u t).0 e) d.0) in
      omega (arith, all))
  | inr e ↦ rw (e) (omega (arith, without-one t ts d.1))
]

-- Distinct texts of a list that are as many as it has: it has no others, and none twice.
full-IsNodup :
    (us ts : List Text)
    → IsNodup ts
    → ((t : Text) → In t ts → In t us)
    → length us ≤ length ts
    → IsNodup us × ((u : Text) → In u us → In u ts)
unfolding without
full-IsNodup [] ts d sub h = (tt, λ u i. absurd i)
full-IsNodup (u ∷ us) ts d sub h = elim (Bool-cases (contains u ts)) [
  | inl e ↦
      let more =
        full-IsNodup us (without u ts) (without-IsNodup u ts d) inner
          (omega (arith, h, without-one u ts d)) in
      (
        (All-away u us (λ v i. gone v (more.1 v i)), more.0),
        λ v i. elim i [
          | inl s ↦ subst (λ x. In x ts) s ((contains_iff u ts).0 e)
          | inr j ↦ select-In (λ x. not (text_eq x u)) ts v (more.1 v j)
        ],
      )
  | inr e ↦ absurd (too_many (distinct-fewer ts us d (λ t i. other t i (sub t i) e)) h)
]
  where
    gone : (v : Text) → In v (without u ts) → v ≢ u
    gone v i s =
        clash (text_eq v u) ((text_eq_iff v u).1 s) (select-passes (λ x. not (text_eq x u)) ts v i)
      where
        clash : (b : Bool) → b ≡ true → not b ≡ true → ⊥
        clash b e k = cc (e, k)

    inner : (t : Text) → In t (without u ts) → In t us
    inner t i = elim (sub t (select-In (λ x. not (text_eq x u)) ts t i)) [
      | inl s ↦ absurd (gone t i (sym s))
      | inr j ↦ j
    ]

    other : (t : Text) → In t ts → In t (u ∷ us) → contains u ts ≡ false → In t us
    other t i (inl s) e =
        absurd (missing (contains u ts) e ((contains_iff u ts).1 (subst (λ x. In x ts) (sym s) i)))
      where
        missing : (b : Bool) → b ≡ false → b ≡ true → ⊥
        missing b e k = cc (e, k)
    other t i (inr j) e = j

    too_many : {a b : ℕ} → a ≤ b → suc b ≤ a → ⊥
    too_many x y = omega (arith, x, y)

distinct_tags-In : (t : Text) (ts : List Text) → In t (distinct_tags ts) ↔ In t ts
unfolding distinct_tags
distinct_tags-In t [] = (λ i. i, λ i. i)
distinct_tags-In t (u ∷ ts) =
    let more = distinct_tags-In t ts in
    elim (Bool-cases (contains u (distinct_tags ts))) [
      | inl e ↦ rw (e) (
        λ i. inr (more.0 i),
        λ i. elim i [
          | inl s ↦ subst (λ x. In x (distinct_tags ts)) s ((contains_iff u (distinct_tags ts)).0 e)
          | inr j ↦ more.1 j
        ],
      )
      | inr e ↦ rw (e) (
        λ i. elim i [ inl s ↦ inl s | inr j ↦ inr (more.0 j) ],
        λ i. elim i [ inl s ↦ inl s | inr j ↦ inr (more.1 j) ],
      )
    ]

distinct_tags-IsNodup : (ts : List Text) → IsNodup (distinct_tags ts)
unfolding distinct_tags
distinct_tags-IsNodup [] = tt
distinct_tags-IsNodup (u ∷ ts) = elim (Bool-cases (contains u (distinct_tags ts))) [
  | inl e ↦ rw (e) (distinct_tags-IsNodup ts)
  | inr e ↦ rw (e) (
    All-away u (distinct_tags ts) (λ v i s.
        absent (contains u (distinct_tags ts)) e
          ((contains_iff u (distinct_tags ts)).1 (subst (λ x. In x (distinct_tags ts)) s i))),
    distinct_tags-IsNodup ts,
  )
]
  where
    absent : (b : Bool) → b ≡ false → b ≡ true → ⊥
    absent b e k = cc (e, k)

-- The filter lets a document through exactly when it has every wanted tag and no tag is wanted twice.
pub has_all_tags_iff :
    (wanted tags : List Text)
    → (has_all_tags wanted tags ≡ true) ↔ (IsNodup wanted × ((t : Text) → In t wanted → In t tags))
unfolding has_all_tags
has_all_tags_iff wanted tags = (
  λ h.
      let full =
        full-IsNodup wanted counted nodup inside
          (omega (arith, (==_iff (length counted) (length wanted)).0 h)) in
      (
        full.0,
        λ t i. select-In (λ u. contains u wanted) tags t ((distinct_tags-In t kept).0 (full.1 t i)),
      ),
  λ h.
      let fewer = distinct-fewer counted wanted nodup inside in
      let more = distinct-fewer wanted counted h.0 (λ t i.
        (distinct_tags-In t kept).1
          (In-select (λ u. contains u wanted) tags t (h.1 t i) ((contains_iff t wanted).1 i))) in
      (==_iff (length counted) (length wanted)).1 (omega (arith, fewer, more)),
)
  where
    kept : List Text
    kept = select (λ u. contains u wanted) tags

    counted : List Text
    counted = distinct_tags kept

    nodup : IsNodup counted
    nodup = distinct_tags-IsNodup kept

    inside : (t : Text) → In t counted → In t wanted
    inside t i =
        (contains_iff t wanted).0
          (select-passes (λ u. contains u wanted) tags t ((distinct_tags-In t kept).0 i))
