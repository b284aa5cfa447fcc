-- ===== src/Memory/Unique.antt =====
-- The two unique indexes of the `memories` table as a predicate on its rows.
use engineering_memory_agent.Common.{
  String, Bool, true, false, not, ◌&&◌, ◌||◌, ◌≡◌, refl, sym, subst, inl, inr, none, some, List, [],
  ◌∷◌, arith, str_eq, str_eq_iff, Bool-cases, Option-cases,
}
use engineering_memory_agent.Memory.Row.{Row}
use engineering_memory_agent.Memory.Table.{
  hash_is, find_id, is_live, taken, live_hash, update_id, insert_row,
}

module _ {V : Type 0} where
  -- No row of the list has the live hash of `r`.
  unfoldable pub alone : Row V → List (Row V) → Bool
  alone r rows = elim r.content_hash [ none ↦ true | some h ↦ r.deleted || not (live_hash h rows) ]

  -- Ids are distinct, and so are the content hashes of live rows.
  abbrev pub IsUnique : List (Row V) → Type 0
  IsUnique [] = Unit
  IsUnique (r ∷ rows) = (alone r rows ≡ true) × (find_id r.id rows ≡ none) × IsUnique rows

  insert_row_cases :
      (r : Row V) (rows rows' : List (Row V))
      → insert_row r rows ≡ some rows'
      → (rows' ≡ r ∷ rows) × (alone r rows ≡ true)
  unfolding insert_row alone
  insert_row_cases r rows rows' e = ground arith

  pub insert_row-IsUnique :
      (r : Row V) (rows rows' : List (Row V))
      → find_id r.id rows ≡ none
      → insert_row r rows ≡ some rows'
      → IsUnique rows
      → IsUnique rows'
  insert_row-IsUnique r rows rows' new e u =
      let c = insert_row_cases r rows rows' e in subst IsUnique (sym c.0) (c.1, new, u)

  pub update_absent :
      (k : String) (g : Row V → Row V) (rows : List (Row V))
      → find_id k rows ≡ none
      → update_id k g rows ≡ rows
  unfolding update_id find_id
  update_absent k g [] h = refl
  update_absent k g (r ∷ rows) h = ground (arith, update_absent k g rows)

  taken_absent :
      (h k : String) (rows : List (Row V))
      → find_id k rows ≡ none
      → taken h k rows ≡ live_hash h rows
  unfolding taken live_hash find_id
  taken_absent h k [] e = refl
  taken_absent h k (r ∷ rows) e = ground (arith, taken_absent h k rows)

  module _ (g : Row V → Row V) (keeps_id : (r : Row V) → (g r).id ≡ r.id) where
    find_id-update_absent :
        (j k : String) (rows : List (Row V))
        → find_id j rows ≡ none
        → find_id j (update_id k g rows) ≡ none
    unfolding update_id find_id
    find_id-update_absent j k [] h = refl
    find_id-update_absent j k (r ∷ rows) h =
        ground (arith, find_id-update_absent j k rows, keeps_id r)

    -- A change of one row that keeps its hash, or gives the hash up, adds no live hash.
    module _ (keeps_hash : (r : Row V) → (g r).content_hash ≡ r.content_hash)
        (stays_deleted : (r : Row V) → r.deleted ≡ true → (g r).deleted ≡ true) where
      live_hash-update :
          (h k : String) (rows : List (Row V))
          → live_hash h rows ≡ false
          → live_hash h (update_id k g rows) ≡ false
      unfolding update_id live_hash
      live_hash-update h k [] e = refl
      live_hash-update h k (r ∷ rows) e =
          ground (arith, live_hash-update h k rows, keeps_hash r, stays_deleted r)

      alone-update :
          (r : Row V) (k : String) (rows : List (Row V))
          → alone r rows ≡ true
          → alone r (update_id k g rows) ≡ true
      unfolding alone
      alone-update r k rows e = elim (Option-cases r.content_hash) [
        | inl n ↦ rw n
        | inr (h, n) ↦ rw n (ground (arith, live_hash-update h k rows, n))
      ]

      alone-changed :
          (r : Row V) (rows : List (Row V)) → alone r rows ≡ true → alone (g r) rows ≡ true
      unfolding alone
      alone-changed r rows e = ground (arith, keeps_hash r, stays_deleted r)

      pub update_id-IsUnique :
          (k : String) (rows : List (Row V)) → IsUnique rows → IsUnique (update_id k g rows)
      unfolding update_id
      update_id-IsUnique k [] u = u
      update_id-IsUnique k (r ∷ rows) u =
          let ih = update_id-IsUnique k rows u.2 in
          elim (Bool-cases (str_eq r.id k)) [
            | inl e ↦ rw e (
              alone-changed r _ (alone-update r k rows u.0),
              rw (keeps_id r) (find_id-update_absent r.id k rows u.1),
              ih,
            )
            | inr e ↦ rw e (alone-update r k rows u.0, find_id-update_absent r.id k rows u.1, ih)
          ]

    -- A change that gives the row `k` a hash that no other live row has, or that changes a row which
    -- is not live.
    module _ (h : String) (sets_hash : (r : Row V) → (g r).content_hash ≡ some h)
        (keeps_deleted : (r : Row V) → (g r).deleted ≡ r.deleted) where
      live_hash-set :
          (x k : String) (rows : List (Row V))
          → IsUnique rows
          → live_hash x rows ≡ false
          → (is_live k rows && str_eq h x) ≡ false
          → live_hash x (update_id k g rows) ≡ false
      unfolding update_id live_hash is_live find_id
      live_hash-set x k [] u e n = refl
      live_hash-set x k (r ∷ rows) u e n = elim (Bool-cases (str_eq r.id k)) [
        | inl m ↦
            let absent : find_id k rows ≡ none =
              subst (λ j. find_id j rows ≡ none) ((str_eq_iff r.id k).0 m) u.1 in
            rw (m, update_absent k g rows absent) (ground (arith, keeps_deleted r, sets_hash r))
        | inr m ↦ rw m (ground (arith, live_hash-set x k rows u.2))
      ]

      alone-set :
          (q : Row V) (k : String) (rows : List (Row V))
          → IsUnique rows
          → alone q rows ≡ true
          → (is_live k rows && not q.deleted && hash_is h q.content_hash) ≡ false
          → alone q (update_id k g rows) ≡ true
      unfolding alone
      alone-set q k rows u e n = elim (Option-cases q.content_hash) [
        | inl m ↦ rw m
        | inr (x, m) ↦
            rw m (ground (arith, live_hash-set x k rows u, m, str_eq_iff h x, str_eq_iff x h))
      ]

      other_row :
          (r : Row V) (k : String) (rows : List (Row V))
          → str_eq r.id k ≡ false
          → (is_live k (r ∷ rows) && taken h k (r ∷ rows)) ≡ false
          → ((is_live k rows && not r.deleted && hash_is h r.content_hash) ≡ false)
            × ((is_live k rows && taken h k rows) ≡ false)
      unfolding is_live taken find_id
      other_row r k rows m n = ground (arith, m, n)

      pub set_hash-IsUnique :
          (k : String) (rows : List (Row V))
          → IsUnique rows
          → (is_live k rows && taken h k rows) ≡ false
          → IsUnique (update_id k g rows)
      unfolding update_id
      set_hash-IsUnique k [] u n = u
      set_hash-IsUnique k (r ∷ rows) u n = elim (Bool-cases (str_eq r.id k)) [
        | inl m ↦
            let absent : find_id k rows ≡ none =
              subst (λ j. find_id j rows ≡ none) ((str_eq_iff r.id k).0 m) u.1 in
            rw (m, update_absent k g rows absent)
              (
                (unfold alone is_live taken find_id in
                    ground
                      (arith, m, sets_hash r, keeps_deleted r, n, taken_absent h k rows absent)),
                rw (keeps_id r) u.1,
                u.2,
              )
        | inr m ↦
            let parts = other_row r k rows m n in
            rw m (
              alone-set r k rows u.2 u.0 parts.0,
              find_id-update_absent r.id k rows u.1,
              set_hash-IsUnique k rows u.2 parts.1,
            )
      ]
