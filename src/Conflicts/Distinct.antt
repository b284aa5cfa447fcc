-- ===== src/Conflicts/Distinct.antt =====
-- The unique indexes of `pending_conflicts` as a predicate on the queue, and inserts into it
-- (backend/service/conflicts.py).
use engineering_memory_agent.Common.{
  String, Bool, true, false, ◌||◌, ◌≡◌, refl, subst, inl, inr, Option, none, some, List, [], ◌∷◌,
  ◌++◌, arith, str_eq, str_eq_iff, Bool-cases, Option-cases,
}
use engineering_memory_agent.Memory.Resolve.{Resolution}
use engineering_memory_agent.Conflicts.Queue.{
  Conflict, Status, is_pending, same_hash, has_pair, same_content, same_pair, collide, collides,
  insert_conflict, find_conflict, set_status,
}

same_hash_sym : (a b : Option String) → same_hash a b ≡ same_hash b a
same_hash_sym none none = refl
same_hash_sym none (some b) = refl
same_hash_sym (some a) none = refl
same_hash_sym (some a) (some b) = ground (arith, str_eq_iff a b, str_eq_iff b a)

or_step : (a x y z : Bool) → x ≡ (y || z) → (a || x) ≡ ((a || y) || z)
or_step true x y z e = refl
or_step false x y z e = e

module _ {V : Type 0} where
  -- Ids are distinct, and no two pending rows collide.
  abbrev pub Distinct : List (Conflict V) → Type 0
  Distinct [] = Unit
  Distinct (c ∷ queue) =
      (collides c queue ≡ false) × (find_conflict c.id queue ≡ none) × Distinct queue

  same_content_sym : (c d : Conflict V) → same_content c d ≡ same_content d c
  unfolding same_content
  same_content_sym c d = ground (
    arith,
    same_hash_sym c.deferred.content_hash d.deferred.content_hash,
    str_eq_iff c.existing_id d.existing_id,
    str_eq_iff d.existing_id c.existing_id,
  )

  same_pair_sym : (c d : Conflict V) → same_pair c d ≡ same_pair d c
  unfolding same_pair has_pair
  same_pair_sym c d = elim (Option-cases c.peer_id) [
    | inl e ↦ elim (Option-cases d.peer_id) [
      | inl f ↦ rw (e, f) (ground arith)
      | inr (q, f) ↦ rw (e, f) (ground arith)
    ]
    | inr (p, e) ↦ elim (Option-cases d.peer_id) [
      | inl f ↦ rw (e, f) (ground arith)
      | inr (q, f) ↦
          rw (e, f)
            (ground (
              arith,
              str_eq_iff c.existing_id d.existing_id,
              str_eq_iff d.existing_id c.existing_id,
              str_eq_iff p q,
              str_eq_iff q p,
              str_eq_iff c.existing_id q,
              str_eq_iff q c.existing_id,
              str_eq_iff d.existing_id p,
              str_eq_iff p d.existing_id,
            ))
    ]
  ]

  pub collide_sym : (c d : Conflict V) → collide c d ≡ collide d c
  unfolding collide
  collide_sym c d = ground (arith, same_content_sym c d, same_pair_sym c d)

  collides-append :
      (c : Conflict V) (q p : List (Conflict V))
      → collides c (q ++ p) ≡ (collides c q || collides c p)
  unfolding collides
  collides-append c [] p = refl
  collides-append c (d ∷ q) p =
      or_step (collide d c) (collides c (q ++ p)) (collides c q) (collides c p)
        (collides-append c q p)

  find_conflict-append :
      (k : String) (q : List (Conflict V)) (c : Conflict V)
      → find_conflict k q ≡ none
      → str_eq c.id k ≡ false
      → find_conflict k (q ++ c ∷ []) ≡ none
  unfolding find_conflict
  find_conflict-append k [] c e n = rw n refl
  find_conflict-append k (d ∷ q) c e n = elim (Bool-cases (str_eq d.id k)) [
    | inl m ↦ cc (rw m at e)
    | inr m ↦ rw m (find_conflict-append k q c (rw m at e) n)
  ]

  other_id :
      (c d : Conflict V) (q : List (Conflict V))
      → find_conflict c.id (d ∷ q) ≡ none
      → (str_eq c.id d.id ≡ false) × (find_conflict c.id q ≡ none)
  unfolding find_conflict
  other_id c d q e = elim (Bool-cases (str_eq d.id c.id)) [
    | inl m ↦ cc (rw m at e)
    | inr m ↦ (ground (arith, str_eq_iff c.id d.id, str_eq_iff d.id c.id), rw m at e)
  ]

  append-Distinct :
      (c : Conflict V) (q : List (Conflict V))
      → collides c q ≡ false
      → find_conflict c.id q ≡ none
      → Distinct q
      → Distinct (q ++ c ∷ [])
  unfolding collides
  append-Distinct c [] n f u = unfold find_conflict in (refl, refl, tt)
  append-Distinct c (d ∷ q) n f u =
      let (apart, f') = other_id c d q f in
      (
        ground (arith, collides-append d q (c ∷ []), collide_sym c d, u.0),
        find_conflict-append d.id q c u.1 apart,
        append-Distinct c q (ground (arith, n)) f' u.2,
      )

  pub insert_conflict-Distinct :
      (c : Conflict V) (q q' : List (Conflict V))
      → find_conflict c.id q ≡ none
      → Distinct q
      → insert_conflict c q ≡ some q'
      → Distinct q'
  unfolding insert_conflict
  insert_conflict-Distinct c q q' f u e = elim (Bool-cases (collides c q)) [
    | inl m ↦ cc (rw m at e)
    | inr m ↦ subst Distinct (cc (rw m at e)) (append-Distinct c q m f u)
  ]

  pub find_conflict-set_status :
      (j : String) (s : Status) (r : Option Resolution) (k : String) (q : List (Conflict V))
      → find_conflict j q ≡ none
      → find_conflict j (set_status s r k q) ≡ none
  unfolding find_conflict set_status
  find_conflict-set_status j s r k [] e = refl
  find_conflict-set_status j s r k (c ∷ q) e = ground (arith, find_conflict-set_status j s r k q, e)

  pub collide-resolved :
      (c d : Conflict V)
      → is_pending d.status ≡ false
      → (collide c d ≡ false) × (collide d c ≡ false)
  unfolding collide
  collide-resolved c d e = (ground arith, ground arith)

  pub collides-resolved :
      (c : Conflict V) (q : List (Conflict V)) → is_pending c.status ≡ false → collides c q ≡ false
  unfolding collides
  collides-resolved c [] e = refl
  collides-resolved c (d ∷ q) e =
      ground (arith, (collide-resolved d c e).0, collides-resolved c q e)
