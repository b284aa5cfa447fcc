-- ===== src/Memory/Live.antt =====
-- Which rows are live after the SQL statements of backend/service/memory.py, and which contents the
-- table stands for.
use engineering_memory_agent.Common.{
  String, Bool, true, false, ◌||◌, ◌≡◌, ◌≢◌, refl, inl, inr, some, List, [], ◌∷◌, ◌++◌, arith,
  str_eq, str_eq_iff, Bool-cases,
}
use engineering_memory_agent.Common.Eq.{string_eq}
use engineering_memory_agent.Common.Dict.{get, get-put_self}
use engineering_memory_agent.Memory.Row.{Row, Meta}
use engineering_memory_agent.Memory.Values.{contains, as_texts, record_prior_hash}
use engineering_memory_agent.Memory.Table.{
  stands_for, find_by_hash, find_id, is_live, update_id, soft_delete, insert_row,
}

contains-append : (h : String) (l : List String) → contains h (l ++ h ∷ []) ≡ true
unfolding contains
contains-append h [] = ground (arith, str_eq_iff h h)
contains-append h (t ∷ l) = ground (arith, contains-append h l)

-- A hash that is recorded as superseded is found in the metadata.
pub contains-record_prior_hash :
    (m : Meta) (h : String)
    → str_eq h "" ≡ false
    → contains h (as_texts (get "prior_hashes" (record_prior_hash m (some h)))) ≡ true
unfolding record_prior_hash
contains-record_prior_hash m h e =
    rw (e, get-put_self)
      (unfold as_texts in
        elim (Bool-cases (contains h (as_texts (get "prior_hashes" m)))) [
          | inl c ↦ rw c c
          | inr c ↦ rw c (contains-append h (as_texts (get "prior_hashes" m)))
        ])

module _ {V : Type 0} where
  -- A live row stands for the content with this hash.
  unfoldable pub known : String → List (Row V) → Bool
  known h [] = false
  known h (r ∷ rows) = stands_for h r || known h rows

  pub known-find_by_hash :
      (h : String) (rows : List (Row V))
      → known h rows ≡ true
      → (r : Row V) × (find_by_hash h rows ≡ some r)
  unfolding known find_by_hash
  known-find_by_hash h [] e = cc
  known-find_by_hash h (r ∷ rows) e = elim (Bool-cases (stands_for h r)) [
    | inl c ↦ (r, rw c)
    | inr c ↦ let (q, f) = known-find_by_hash h rows (rw c at e) in (q, rw c f)
  ]

  pub known_of_found :
      (h : String) (rows : List (Row V)) {r : Row V}
      → find_by_hash h rows ≡ some r
      → known h rows ≡ true
  unfolding known find_by_hash
  known_of_found h [] e = cc
  known_of_found h (q ∷ rows) e = elim (Bool-cases (stands_for h q)) [
    | inl c ↦ rw c
    | inr c ↦ rw c (known_of_found h rows (rw c at e))
  ]

  pub known-insert :
      (h : String) (r : Row V) (rows rows' : List (Row V))
      → insert_row r rows ≡ some rows'
      → stands_for h r ≡ true
      → known h rows' ≡ true
  unfolding known insert_row
  known-insert h r rows rows' e c = ground arith

  -- The row `k` is live, and after the change it stands for the content.
  pub known-update :
      (h k : String) (g : Row V → Row V) (rows : List (Row V)) {r : Row V}
      → find_id k rows ≡ some r
      → stands_for h (g r) ≡ true
      → known h (update_id k g rows) ≡ true
  unfolding known find_id update_id
  known-update h k g [] e c = cc
  known-update h k g (q ∷ rows) {r} e c = elim (Bool-cases (str_eq q.id k)) [
    | inl m ↦ let same : q ≡ r = cc (rw m at e) in rw (m, same, c)
    | inr m ↦ rw m (ground (arith, known-update h k g rows (rw m at e) c))
  ]

  module _ (g : Row V → Row V) (keeps_id : (r : Row V) → (g r).id ≡ r.id) where
    pub is_live-update :
        (keeps_deleted : (r : Row V) → (g r).deleted ≡ r.deleted) (j k : String)
        (rows : List (Row V))
        → is_live j (update_id k g rows) ≡ is_live j rows
    unfolding is_live find_id update_id
    is_live-update keeps_deleted j k [] = refl
    is_live-update keeps_deleted j k (r ∷ rows) =
        ground (arith, keeps_id r, keeps_deleted r, is_live-update keeps_deleted j k rows)

  pub is_live-soft_delete_self :
      (k : String) (rows : List (Row V)) → is_live k (soft_delete k rows) ≡ false
  unfolding is_live find_id soft_delete update_id
  is_live-soft_delete_self k [] = refl
  is_live-soft_delete_self k (r ∷ rows) = ground (arith, is_live-soft_delete_self k rows)

  pub is_live-soft_delete_ne :
      (j k : String) (rows : List (Row V)) → j ≢ k → is_live j (soft_delete k rows) ≡ is_live j rows
  unfolding is_live find_id soft_delete update_id
  is_live-soft_delete_ne j k [] ne = refl
  is_live-soft_delete_ne j k (r ∷ rows) ne =
      ground (arith, is_live-soft_delete_ne j k rows, str_eq_iff r.id j, str_eq_iff r.id k)
