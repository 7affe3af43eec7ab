-- ===== src/CodeStore/Ranking.antt =====
-- symbols.go: the fusion of rankings. `F` stands for `float64`, with the operations that the code uses.
pub mod Pinned
use ragrep.Common.{
  ℕ, suc, zero, ◌+◌, Text, Bool, true, false, not, ◌&&◌, ◌||◌, ◌==◌, ltb, List, [], ◌∷◌, ◌++◌, map,
  select, take, Option, none, some, if◌then◌else◌,
}

pub record Floats (F : Type 0) : Type 0 where
  pub nought : F
  pub plus : F → F → F
  -- `1.0 / float64(n)` and `1.0 / (1.0 + d)`.
  pub inverse : ℕ → F
  pub closeness : F → F
  pub same : F → F → Bool
  pub above : F → F → Bool

-- `m[id]` with the zero value for a missing key.
unfoldable pub value_at : {V : Type 0} → V → ℕ → List (ℕ × V) → V
value_at missing id [] = missing
value_at missing id ((key, v) ∷ m) =
    let rest = value_at missing id m in if key == id then v else rest

unfoldable pub has_id : ℕ → List ℕ → Bool
has_id id [] = false
has_id id (x ∷ ids) = x == id || has_id id ids

-- Ranks from 1; a later entry of an id is the one that stays.
unfoldable pub ranks_from : ℕ → List ℕ → List (ℕ × ℕ)
ranks_from rank [] = []
ranks_from rank (id ∷ ids) = ranks_from (suc rank) ids ++ (id, rank) ∷ []

unfoldable pub rank_map : List ℕ → List (ℕ × ℕ)
unfolding ranks_from
rank_map = ranks_from 1

-- `sort.Slice`.
unfoldable pub insert_by : (ℕ → ℕ → Bool) → ℕ → List ℕ → List ℕ
insert_by before id [] = id ∷ []
insert_by before id (x ∷ ids) =
    let rest = insert_by before id ids in if before id x then id ∷ x ∷ ids else x ∷ rest

unfoldable pub sort_by : (ℕ → ℕ → Bool) → List ℕ → List ℕ
unfolding insert_by
sort_by before [] = []
sort_by before (id ∷ ids) = insert_by before id (sort_by before ids)

module _ {F : Type 0} (floats : Floats F) where
  unfoldable pub score_of : ℕ → List (ℕ × F) → F
  unfolding value_at
  score_of = value_at floats.nought

  -- `scores[id] += amount`.
  unfoldable pub add_score : ℕ → F → List (ℕ × F) → List (ℕ × F)
  add_score id amount [] = (id, floats.plus floats.nought amount) ∷ []
  add_score id amount ((key, v) ∷ scores) =
      let rest = add_score id amount scores in
      if key == id then (key, floats.plus v amount) ∷ scores else (key, v) ∷ rest

  -- The inner loop of rrfMerge from a rank on.
  unfoldable pub add_ranked : ℕ → List ℕ → List (ℕ × F) → List (ℕ × F)
  unfolding add_score
  add_ranked r [] scores = scores
  add_ranked r (id ∷ ids) scores =
      add_ranked (suc r) ids (add_score id (floats.inverse (60 + r + 1)) scores)

  unfoldable pub fused_scores : List (List ℕ) → List (ℕ × F) → List (ℕ × F)
  unfolding add_ranked
  fused_scores [] scores = scores
  fused_scores (ids ∷ lists) scores = fused_scores lists (add_ranked 0 ids scores)

  -- A higher score goes first, of equal ones the lower id.
  unfoldable pub ranks_before : List (ℕ × F) → ℕ → ℕ → Bool
  unfolding score_of
  ranks_before scores i j =
      if floats.same (score_of i scores) (score_of j scores)
      then ltb i j
      else floats.above (score_of i scores) (score_of j scores)

  unfoldable pub rrf_merge : List (List ℕ) → List ℕ × List (ℕ × F)
  unfolding fused_scores sort_by ranks_before
  rrf_merge lists =
      let scores = fused_scores lists [] in
      (sort_by (ranks_before scores) (map (λ entry. entry.0) scores), scores)

  -- The ids in order; the exact ones are `exact_ids`.
  unfoldable pub prioritize_exact_ids : List ℕ → List ℕ → List (ℕ × F) → ℕ → List ℕ
  unfolding sort_by ranks_before has_id
  prioritize_exact_ids exact_ids candidates scores k =
      let exact = sort_by (ranks_before scores) exact_ids in
      take k (exact ++ select (λ id. not (has_id id exact)) candidates)
