-- ===== src/Memory/Search.antt =====
-- The rows that the similarity search of backend/service/memory.py (`_find_similar`) answers.
use engineering_memory_agent.Common.{
  ℕ, false, not, ◌&&◌, ◌≡◌, subst, inl, inr, none, some, List, [], ◌∷◌, arith, All, take, zero, suc,
  ltb, str_eq, str_eq_iff, Bool-cases, Option-cases,
}
use engineering_memory_agent.Memory.Row.{Row}
use engineering_memory_agent.Memory.Table.{
  find_id, find_similar, insert_sorted, candidate, candidates, supplement_threshold,
}
use engineering_memory_agent.Memory.Unique.{IsUnique}

module _ {V : Type 0} where
  -- The row is in the table under its id, and live.
  abbrev pub IsStored : List (Row V) → Row V → Type 0
  IsStored rows r = (find_id r.id rows ≡ some r) × (r.deleted ≡ false)

  abbrev pub AllStored : List (Row V) → List (ℕ × Row V) → Type 0
  AllStored rows l = All (λ e. IsStored rows e.1) l

  AllStored-insert_sorted :
      (rows : List (Row V)) (s : ℕ) (r : Row V) (l : List (ℕ × Row V))
      → IsStored rows r
      → AllStored rows l
      → AllStored rows (insert_sorted (s, r) l)
  unfolding insert_sorted
  AllStored-insert_sorted rows s r [] h a = (h, tt)
  AllStored-insert_sorted rows s r ((t, q) ∷ l) h a = elim (Bool-cases (ltb t s)) [
    | inl e ↦ rw e (h, a)
    | inr e ↦ rw e (a.0, AllStored-insert_sorted rows s r l h a.1)
  ]

  find_id-later :
      (r q : Row V) (rows : List (Row V))
      → find_id r.id rows ≡ none
      → find_id q.id rows ≡ some q
      → find_id q.id (r ∷ rows) ≡ some q
  unfolding find_id
  find_id-later r q rows n e = elim (Bool-cases (str_eq r.id q.id)) [
    | inl m ↦ cc (subst (λ j. find_id j rows ≡ none) ((str_eq_iff r.id q.id).0 m) n, e)
    | inr m ↦ rw m e
  ]

  AllStored-later :
      (r : Row V) (rows : List (Row V)) (l : List (ℕ × Row V))
      → find_id r.id rows ≡ none
      → AllStored rows l
      → AllStored (r ∷ rows) l
  AllStored-later r rows [] n a = tt
  AllStored-later r rows ((s, q) ∷ l) n a =
      ((find_id-later r q rows n a.0.0, a.0.1), AllStored-later r rows l n a.1)

  AllStored-candidate :
      (rows : List (Row V)) (near : V → ℕ) (r : Row V) (l : List (ℕ × Row V))
      → find_id r.id rows ≡ some r
      → AllStored rows l
      → AllStored rows (candidate near r l)
  unfolding candidate
  AllStored-candidate rows near r l h a = elim (Option-cases r.embedding) [
    | inl e ↦ rw (e, candidate) a
    | inr (v, e) ↦ elim (Bool-cases (not r.deleted && ltb supplement_threshold (near v))) [
      | inl c ↦
          rw (e, candidate)
            (rw c (AllStored-insert_sorted rows (near v) r l (h, ground (arith, c)) a))
      | inr c ↦ rw (e, candidate) (rw c a)
    ]
  ]

  AllStored-candidates :
      (near : V → ℕ) (rows : List (Row V)) → IsUnique rows → AllStored rows (candidates near rows)
  unfolding candidates
  AllStored-candidates near [] u = tt
  AllStored-candidates near (r ∷ rows) u =
      AllStored-candidate (r ∷ rows) near r (candidates near rows)
        (unfold find_id in ground (arith, str_eq_iff r.id r.id))
        (AllStored-later r rows (candidates near rows) u.1 (AllStored-candidates near rows u.2))

  AllStored-take :
      (n : ℕ) (rows : List (Row V)) (l : List (ℕ × Row V))
      → AllStored rows l
      → AllStored rows (take n l)
  AllStored-take zero rows l a = tt
  AllStored-take (suc n) rows [] a = tt
  AllStored-take (suc n) rows (x ∷ l) a = (a.0, AllStored-take n rows l a.1)

  -- Every match of the similarity search is a live row of the table.
  pub AllStored-find_similar :
      (near : V → ℕ) (rows : List (Row V)) → IsUnique rows → AllStored rows (find_similar near rows)
  unfolding find_similar
  AllStored-find_similar near rows u =
      AllStored-take 3 rows (candidates near rows) (AllStored-candidates near rows u)
