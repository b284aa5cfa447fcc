-- ===== src/Retrieval/Ranking.antt =====
-- The order of the fused results of `retrieve_hybrid` in backend/service/retrieval/retrieval.py.
use engineering_memory_agent.Common.{
  ℕ, zero, suc, ◌<◌, ◌≡◌, refl, ap, ◌∙◌, inl, inr, arith, false, String, Option, none, some, List,
  [], ◌∷◌, ◌++◌, map, take, All, Option-cases,
}
use engineering_memory_agent.Common.Eq.{string_eq, ◌=?◌}
use engineering_memory_agent.Common.Dict.{Dict, get, put, get-put, get-put_self}
use engineering_memory_agent.Retrieval.Fusion.{
  Chunk, Fraction, add_fraction, is_less, reciprocal, ranks, set_default, merge_rows, rrf_score,
  insert_by, sort_by, retrieve_hybrid,
}

-- No sum of two reciprocals is above that of two first ranks.
first_is_most :
    (i j : Option ℕ)
    → is_less
        (add_fraction (reciprocal (some 0)) (reciprocal (some 0)))
        (add_fraction (reciprocal i) (reciprocal j))
      ≡ false
unfolding is_less add_fraction
first_is_most none none = refl
first_is_most none (some j) = ground arith
first_is_most (some i) none = ground arith
first_is_most (some i) (some j) = grind arith

module _ {ℓ} {A : Type ℓ} where
  get-ranks :
      (k : String) (i : ℕ) (rs : List (Chunk A)) (d : Dict String ℕ)
      → All (λ r. (r.id =? k) ≡ false) rs
      → get k (ranks i rs d) ≡ get k d
  unfolding ranks
  get-ranks k i [] d h = refl
  get-ranks k i (r ∷ rs) d h =
      get-ranks k (suc i) rs (put r.id i d) h.1 ∙ get-put r.id k i d ∙ rw (h.0)

  set_default_head :
      (r : Chunk A) (e : String × Chunk A) (d : Dict String (Chunk A))
      → (more : Dict String (Chunk A)) × (set_default r (e ∷ d) ≡ e ∷ more)
  unfolding set_default
  set_default_head r e d = elim (Option-cases (get r.id (e ∷ d))) [
    | inl h ↦ (d ++ ((r.id, r) ∷ []), rw (set_default, h) refl)
    | inr h ↦ (d, rw (set_default, h.1) refl)
  ]

  -- The first of the merged rows stays the first.
  head_kept :
      (rs : List (Chunk A)) (e : String × Chunk A) (d : Dict String (Chunk A))
      → (more : Dict String (Chunk A)) × (merge_rows rs (e ∷ d) ≡ e ∷ more)
  unfolding merge_rows
  head_kept [] e d = (d, refl)
  head_kept (r ∷ rs) e d =
      let (next, same) = set_default_head r e d in
      let (more, kept) = head_kept rs e next in (more, ap (merge_rows rs) same ∙ kept)

  insert_first :
      (score : Chunk A → Fraction) (c : Chunk A) (ds : List (Chunk A))
      → ((d : Chunk A) → is_less (score c) (score d) ≡ false)
      → insert_by score c ds ≡ c ∷ ds
  unfolding insert_by
  insert_first score c [] h = refl
  insert_first score c (d ∷ ds) h = rw (h d)

  -- The score of a chunk that both searches rank first is at least any other.
  none_above :
      (dense_rank sparse_rank : Dict String ℕ) (c d : Chunk A)
      → get c.id dense_rank ≡ some 0
      → get c.id sparse_rank ≡ some 0
      → is_less (rrf_score dense_rank sparse_rank c) (rrf_score dense_rank sparse_rank d) ≡ false
  unfolding rrf_score
  none_above dense_rank sparse_rank c d h k =
      rw (h, k) (first_is_most (get d.id dense_rank) (get d.id sparse_rank))

  -- The rank of the first row of a search, where no other row has its id.
  first_rank :
      (c s : Chunk A) (rs : List (Chunk A))
      → s.id ≡ c.id
      → All (λ r. (r.id =? c.id) ≡ false) rs
      → get c.id (ranks 0 (s ∷ rs) []) ≡ some 0
  unfolding ranks
  first_rank c s rs same h =
      get-ranks c.id 1 rs (put s.id 0 []) h ∙ rw same (get-put_self c.id 0 [])

  -- The chunk that no other outscores leads the sorted rows when it led the merged ones.
  lead_kept :
      (score : Chunk A → Fraction) (c : Chunk A) (rs : List (Chunk A)) (top_k : ℕ)
      → 0 < top_k
      → ((d : Chunk A) → is_less (score c) (score d) ≡ false)
      → take 1 (
          take top_k (sort_by score (map (λ (e : String × Chunk A). e.1) (merge_rows (c ∷ rs) []))))
        ≡ c ∷ []
  unfolding merge_rows sort_by set_default get
  lead_kept score c rs zero p h = ground arith
  lead_kept score c rs (suc k) p h =
      let (more, kept) = head_kept rs (c.id, c) [] in
      rw (kept, insert_first score c (sort_by score (map (λ (e : String × Chunk A). e.1) more)) h)
        refl

  -- A chunk that is the first of the dense and of the sparse rows, and whose id no other row of either
  -- has, is the first result for every positive `top_k`, with the row of the dense search.
  pub agreed_first :
      (c s : Chunk A) (dense sparse : List (Chunk A)) (top_k : ℕ)
      → 0 < top_k
      → s.id ≡ c.id
      → All (λ r. (r.id =? c.id) ≡ false) dense
      → All (λ r. (r.id =? c.id) ≡ false) sparse
      → take 1 (retrieve_hybrid (c ∷ dense) (s ∷ sparse) top_k) ≡ c ∷ []
  unfolding retrieve_hybrid
  agreed_first c s dense sparse top_k p same hd hs =
      let dense_rank = ranks 0 (c ∷ dense) [] in
      let sparse_rank = ranks 0 (s ∷ sparse) [] in
      lead_kept (rrf_score dense_rank sparse_rank) c (dense ++ s ∷ sparse) top_k p (λ d.
        none_above dense_rank sparse_rank c d (first_rank c c dense refl hd)
          (first_rank c s sparse same hs))
