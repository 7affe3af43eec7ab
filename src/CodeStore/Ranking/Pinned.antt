-- ===== src/CodeStore/Ranking/Pinned.antt =====
-- symbols.go: rrfMerge and prioritizeExactIDs, by what they do to the ids.
use ragrep.Common.{
  ℕ, suc, zero, ◌+◌, ◌-◌, ◌≤◌, ◌≡◌, refl, sym, ap, subst, ◌∙◌, ◌↔◌, ◌⊎◌, inl, inr, Bool, Bool-cases,
  true, not, ◌==◌, ==_iff, List, [], ◌∷◌, ◌++◌, map, select, select-In, select-passes, take, length,
  Any, In, arith,
}
use ragrep.CodeStore.Ranking.{
  Floats, has_id, insert_by, sort_by, add_score, add_ranked, fused_scores, ranks_before, rrf_merge,
  prioritize_exact_ids,
}

pub has_id_iff : (id : ℕ) (ids : List ℕ) → (has_id id ids ≡ true) ↔ In id ids
unfolding has_id
has_id_iff id [] = (λ h. cc, λ h. absurd h)
has_id_iff id (x ∷ ids) = elim (Bool-cases (x == id)) [
  | inl e ↦ rw (e) (λ h. inl ((==_iff x id).0 e), λ h. refl)
  | inr e ↦ rw (e) (
    λ h. inr ((has_id_iff id ids).0 h),
    λ h. elim h [ inl s ↦ cc (e, (==_iff x id).1 s) | inr i ↦ (has_id_iff id ids).1 i ],
  )
]

insert_by-In :
    (before : ℕ → ℕ → Bool) (id x : ℕ) (ids : List ℕ)
    → In x (insert_by before id ids) ↔ ((id ≡ x) ⊎ In x ids)
unfolding insert_by
insert_by-In before id x [] = (λ h. h, λ h. h)
insert_by-In before id x (y ∷ ids) = elim (Bool-cases (before id y)) [
  | inl e ↦ rw (e) (λ h. h, λ h. h)
  | inr e ↦ rw (e) (
    λ h. elim h [
      | inl s ↦ inr (inl s)
      | inr i ↦ elim ((insert_by-In before id x ids).0 i) [ inl s ↦ inl s | inr j ↦ inr (inr j) ]
    ],
    λ h. elim h [
      | inl s ↦ inr ((insert_by-In before id x ids).1 (inl s))
      | inr (inl s) ↦ inl s
      | inr (inr j) ↦ inr ((insert_by-In before id x ids).1 (inr j))
    ],
  )
]

pub sort_by-In :
    (before : ℕ → ℕ → Bool) (x : ℕ) (ids : List ℕ) → In x (sort_by before ids) ↔ In x ids
unfolding sort_by
sort_by-In before x [] = (λ h. h, λ h. h)
sort_by-In before x (id ∷ ids) =
    let step = insert_by-In before id x (sort_by before ids) in
    let more = sort_by-In before x ids in
    (
      λ h. elim (step.0 h) [ inl s ↦ inl s | inr i ↦ inr (more.0 i) ],
      λ h. step.1 (elim h [ inl s ↦ inl s | inr i ↦ inr (more.1 i) ]),
    )

take-append : (k : ℕ) (xs ys : List ℕ) → take k (xs ++ ys) ≡ take k xs ++ take (k - length xs) ys
take-append zero xs ys =
    let none_left : 0 ≡ 0 - length xs = omega arith in subst (λ n. [] ≡ take n ys) none_left refl
take-append (suc k) [] ys =
    let all_left : suc k ≡ suc k - 0 = omega arith in
    subst (λ n. take (suc k) ys ≡ take n ys) all_left refl
take-append (suc k) (x ∷ xs) ys =
    let less : k - length xs ≡ suc k - suc (length xs) = omega arith in
    ap (λ zs. x ∷ zs)
      (subst (λ n. take k (xs ++ ys) ≡ take k xs ++ take n ys) less (take-append k xs ys))

length-take : (k : ℕ) (xs : List ℕ) → length (take k xs) ≤ k
length-take zero xs = omega arith
length-take (suc k) [] = omega arith
length-take (suc k) (x ∷ xs) = omega (arith, length-take k xs)

pub take-In : {A : Type 0} (k : ℕ) (xs : List A) (x : A) → In x (take k xs) → In x xs
take-In zero xs x i = absurd i
take-In (suc k) [] x i = i
take-In (suc k) (y ∷ xs) x (inl e) = inl e
take-In (suc k) (y ∷ xs) x (inr i) = inr (take-In k xs x i)

take-full : (k : ℕ) (xs : List ℕ) → (length (take k xs) ≡ k) ⊎ (take k xs ≡ xs)
take-full zero xs = inl refl
take-full (suc k) [] = inr refl
take-full (suc k) (x ∷ xs) = elim (take-full k xs) [
  | inl e ↦ inl (ap suc e)
  | inr e ↦ inr (ap (λ ys. x ∷ ys) e)
]

module _ {F : Type 0} (floats : Floats F) where
  -- The ids of the scores are those that some list has.
  add_score-In :
      (id x : ℕ) (amount : F) (scores : List (ℕ × F))
      → In x (map (λ entry. entry.0) (add_score floats id amount scores))
        ↔ ((id ≡ x) ⊎ In x (map (λ entry. entry.0) scores))
  unfolding add_score
  add_score-In id x amount [] = (λ h. h, λ h. h)
  add_score-In id x amount ((key, v) ∷ scores) = elim (Bool-cases (key == id)) [
    | inl e ↦ rw (e) (λ h. inr h, λ h. elim h [ inl s ↦ inl ((==_iff key id).0 e ∙ s) | inr i ↦ i ])
    | inr e ↦ rw (e) (
      λ h. elim h [
        | inl s ↦ inr (inl s)
        | inr i ↦ elim ((add_score-In id x amount scores).0 i) [
          | inl s ↦ inl s
          | inr j ↦ inr (inr j)
        ]
      ],
      λ h. elim h [
        | inl s ↦ inr ((add_score-In id x amount scores).1 (inl s))
        | inr (inl s) ↦ inl s
        | inr (inr j) ↦ inr ((add_score-In id x amount scores).1 (inr j))
      ],
    )
  ]

  add_ranked-In :
      (r x : ℕ) (ids : List ℕ) (scores : List (ℕ × F))
      → In x (map (λ entry. entry.0) (add_ranked floats r ids scores))
        ↔ (In x ids ⊎ In x (map (λ entry. entry.0) scores))
  unfolding add_ranked
  add_ranked-In r x [] scores = (inr, λ h. elim h [ inl i ↦ absurd i | inr i ↦ i ])
  add_ranked-In r x (id ∷ ids) scores =
      let more =
        add_ranked-In (suc r) x ids (add_score floats id (floats.inverse (60 + r + 1)) scores) in
      let step = add_score-In id x (floats.inverse (60 + r + 1)) scores in
      (
        λ h. elim (more.0 h) [
          | inl i ↦ inl (inr i)
          | inr j ↦ elim (step.0 j) [ inl s ↦ inl (inl s) | inr m ↦ inr m ]
        ],
        λ h. more.1 (elim h [
          | inl (inl s) ↦ inr (step.1 (inl s))
          | inl (inr i) ↦ inl i
          | inr m ↦ inr (step.1 (inr m))
        ]),
      )

  fused_scores-In :
      (x : ℕ) (lists : List (List ℕ)) (scores : List (ℕ × F))
      → In x (map (λ entry. entry.0) (fused_scores floats lists scores))
        ↔ (Any (In x) lists ⊎ In x (map (λ entry. entry.0) scores))
  unfolding fused_scores
  fused_scores-In x [] scores = (inr, λ h. elim h [ inl i ↦ absurd i | inr i ↦ i ])
  fused_scores-In x (ids ∷ lists) scores =
      let more = fused_scores-In x lists (add_ranked floats 0 ids scores) in
      let step = add_ranked-In 0 x ids scores in
      (
        λ h. elim (more.0 h) [
          | inl i ↦ inl (inr i)
          | inr j ↦ elim (step.0 j) [ inl s ↦ inl (inl s) | inr m ↦ inr m ]
        ],
        λ h. more.1 (elim h [
          | inl (inl s) ↦ inr (step.1 (inl s))
          | inl (inr i) ↦ inl i
          | inr m ↦ inr (step.1 (inr m))
        ]),
      )

  -- Fusing rankings loses no id and makes none up.
  pub rrf_merge-In :
      (lists : List (List ℕ)) (x : ℕ) → In x (rrf_merge floats lists).0 ↔ Any (In x) lists
  unfolding rrf_merge
  rrf_merge-In lists x =
      let scores = fused_scores floats lists [] in
      let sorted = sort_by-In (ranks_before floats scores) x (map (λ entry. entry.0) scores) in
      let fused = fused_scores-In x lists [] in
      (
        λ h. elim (fused.0 (sorted.0 h)) [ inl a ↦ a | inr i ↦ absurd i ],
        λ h. sorted.1 (fused.1 (inl h)),
      )

  -- The ids that are pinned: at most `k`, the exact ones before the others, which stand among the
  -- candidates; an exact one is missing only when `k` exact ones are there.
  pub prioritize_exact_ids-exact :
      (exact_ids candidates : List ℕ) (scores : List (ℕ × F)) (k : ℕ)
      → (let ids = prioritize_exact_ids floats exact_ids candidates scores k in
          (length ids ≤ k)
          × ((front : List ℕ) × (back : List ℕ) × (ids ≡ front ++ back)
              × ((x : ℕ) → In x front → In x exact_ids)
              × ((x : ℕ) → In x back → (¬ (In x exact_ids)) × In x candidates)
              × ((length front ≡ k) ⊎ ((x : ℕ) → In x exact_ids → In x front))))
  unfolding prioritize_exact_ids
  prioritize_exact_ids-exact exact_ids candidates scores k =
      let before = ranks_before floats scores in
      let exact = sort_by before exact_ids in
      let others = select (λ id. not (has_id id exact)) candidates in
      (
        length-take k (exact ++ others),
        (
          take k exact,
          take (k - length exact) others,
          take-append k exact others,
          λ x i. (sort_by-In before x exact_ids).0 (take-In k exact x i),
          λ x i.
              let here = take-In (k - length exact) others x i in
              (
                λ j.
                    clash x ((has_id_iff x exact).1 ((sort_by-In before x exact_ids).1 j))
                      (select-passes (λ id. not (has_id id exact)) candidates x here),
                select-In (λ id. not (has_id id exact)) candidates x here,
              ),
          elim (take-full k exact) [
            | inl e ↦ inl e
            | inr e ↦
                inr (λ x i. subst (λ ids. In x ids) (sym e) ((sort_by-In before x exact_ids).1 i))
          ],
        ),
      )
    where
      clash :
          (x : ℕ)
          → has_id x (sort_by (ranks_before floats scores) exact_ids) ≡ true
          → not (has_id x (sort_by (ranks_before floats scores) exact_ids)) ≡ true
          → ⊥
      clash x e k = cc (e, k)
