-- ===== src/Retrieval/Fusion.antt =====
-- `retrieve_hybrid` of backend/service/retrieval/retrieval.py without a reranker: reciprocal-rank fusion of
-- the dense and the sparse results, which are arguments. A score is an exact fraction where the source
-- rounds floats; the factor that scales it to 1 is left out, since it is the same for all.
use engineering_memory_agent.Common.{
  ℕ, suc, ◌+◌, ◌*◌, Bool, String, Option, none, some, List, [], ◌∷◌, ◌++◌, map, take, ltb,
  if◌then◌else◌,
}
use engineering_memory_agent.Common.Eq.{string_eq}
use engineering_memory_agent.Common.Dict.{Dict, get, put}

abbrev pub rrf_k : ℕ
rrf_k = 60

-- A row of a search: its id, and what the result keeps of it.
pub record Chunk {ℓ} (A : Type ℓ) : Type ℓ where
  pub id : String
  pub body : A

pub record Fraction : Type 0 where
  pub num : ℕ
  pub den : ℕ

unfoldable pub add_fraction : Fraction → Fraction → Fraction
add_fraction p q = record { num = p.num * q.den + q.num * p.den; den = p.den * q.den }

unfoldable pub is_less : Fraction → Fraction → Bool
is_less p q = ltb (p.num * q.den) (q.num * p.den)

abbrev pub no_score : Fraction
no_score = record { num = 0; den = 1 }

-- `1.0 / (_RRF_K + rank)`, where there is a rank.
abbrev pub reciprocal : Option ℕ → Fraction
reciprocal none = no_score
reciprocal (some rank) = record { num = 1; den = rrf_k + rank }

module _ {ℓ} {A : Type ℓ} where
  -- `dense_rank` and `sparse_rank`, from a position on.
  unfoldable pub ranks : ℕ → List (Chunk A) → Dict String ℕ → Dict String ℕ
  ranks i [] d = d
  ranks i (r ∷ rs) d = ranks (suc i) rs (put r.id i d)

  -- `merged.setdefault`
  unfoldable pub set_default : Chunk A → Dict String (Chunk A) → Dict String (Chunk A)
  set_default r d = elim (get r.id d) [ none ↦ d ++ ((r.id, r) ∷ []) | some _ ↦ d ]

  unfoldable pub merge_rows : List (Chunk A) → Dict String (Chunk A) → Dict String (Chunk A)
  unfolding set_default
  merge_rows [] d = d
  merge_rows (r ∷ rs) d = merge_rows rs (set_default r d)

  unfoldable pub rrf_score : Dict String ℕ → Dict String ℕ → Chunk A → Fraction
  unfolding add_fraction
  rrf_score dense_rank sparse_rank c =
      add_fraction (reciprocal (get c.id dense_rank)) (reciprocal (get c.id sparse_rank))

  -- `sort(key=score, reverse=True)`, which keeps the order of equal scores.
  unfoldable pub insert_by : (Chunk A → Fraction) → Chunk A → List (Chunk A) → List (Chunk A)
  unfolding is_less
  insert_by score c [] = c ∷ []
  insert_by score c (d ∷ ds) =
      let rest = insert_by score c ds in
      if is_less (score c) (score d) then d ∷ rest else c ∷ d ∷ ds

  unfoldable pub sort_by : (Chunk A → Fraction) → List (Chunk A) → List (Chunk A)
  unfolding insert_by
  sort_by score [] = []
  sort_by score (c ∷ cs) = insert_by score c (sort_by score cs)

  unfoldable pub retrieve_hybrid : List (Chunk A) → List (Chunk A) → ℕ → List (Chunk A)
  unfolding ranks merge_rows rrf_score sort_by
  retrieve_hybrid dense sparse top_k =
      let score = rrf_score (ranks 0 dense []) (ranks 0 sparse []) in
      let candidates = map (λ (e : String × Chunk A). e.1) (merge_rows (dense ++ sparse) []) in
      take top_k (sort_by score candidates)
