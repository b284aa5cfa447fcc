-- ===== src/Conflicts/Update.antt =====
-- Changes of a row's status in the queue of backend/service/conflicts.py.
use engineering_memory_agent.Common.{
  String, true, false, ◌||◌, ◌≡◌, refl, ap, subst, inl, inr, Option, none, some, List, [], ◌∷◌,
  arith, str_eq, str_eq_iff, Bool-cases,
}
use engineering_memory_agent.Memory.Resolve.{Resolution}
use engineering_memory_agent.Conflicts.Queue.{
  Conflict, Status, pending, resolved, collide, collides, find_conflict, set_status, without,
}
use engineering_memory_agent.Conflicts.Distinct.{
  Distinct, collide_sym, collide-resolved, collides-resolved, find_conflict-set_status,
}

abbrev pub restate : {V : Type 0} → Status → Option Resolution → Conflict V → Conflict V
restate s r c = record c { status = s; resolution = r }

module _ {V : Type 0} where
  collides-set_resolved :
      (c : Conflict V) (r : Option Resolution) (k : String) (q : List (Conflict V))
      → collides c q ≡ false
      → collides c (set_status resolved r k q) ≡ false
  unfolding collides set_status
  collides-set_resolved c r k [] e = refl
  collides-set_resolved c r k (d ∷ q) e = elim (Bool-cases (str_eq d.id k)) [
    | inl m ↦
        rw (m, (collide-resolved c (restate resolved r d) refl).1)
          (collides-set_resolved c r k q (ground (arith, e)))
    | inr m ↦ rw m (ground (arith, collides-set_resolved c r k q, e))
  ]

  pub set_resolved-Distinct :
      (r : Option Resolution) (k : String) (q : List (Conflict V))
      → Distinct q
      → Distinct (set_status resolved r k q)
  unfolding set_status
  set_resolved-Distinct r k [] u = tt
  set_resolved-Distinct r k (c ∷ q) u =
      let f = find_conflict-set_status c.id resolved r k q u.1 in
      let rest = set_resolved-Distinct r k q u.2 in
      elim (Bool-cases (str_eq c.id k)) [
        | inl m ↦
            rw m
              (collides-resolved (restate resolved r c) (set_status resolved r k q) refl, f, rest)
        | inr m ↦ rw m (collides-set_resolved c r k q u.0, f, rest)
      ]

  pub set_status-absent :
      (s : Status) (r : Option Resolution) (k : String) (q : List (Conflict V))
      → find_conflict k q ≡ none
      → (set_status s r k q ≡ q) × (without k q ≡ q)
  unfolding set_status find_conflict without
  set_status-absent s r k [] e = (refl, refl)
  set_status-absent s r k (c ∷ q) e = elim (Bool-cases (str_eq c.id k)) [
    | inl m ↦ cc (rw m at e)
    | inr m ↦
        let (a, b) = set_status-absent s r k q (rw m at e) in
        (rw m (ap (λ l. c ∷ l) a), rw m (ap (λ l. c ∷ l) b))
  ]

  -- The row found by an id is the first of the list or stands behind it.
  find_conflict-head :
      (k : String) (d c : Conflict V) (q : List (Conflict V))
      → str_eq d.id k ≡ true
      → find_conflict k (d ∷ q) ≡ some c
      → d ≡ c
  unfolding find_conflict
  find_conflict-head k d c q m e = cc (rw m at e)

  collides-set_pending :
      (d c : Conflict V) (k : String) (q : List (Conflict V))
      → Distinct q
      → find_conflict k q ≡ some c
      → collides d q ≡ false
      → collide (restate pending none c) d ≡ false
      → collides d (set_status pending none k q) ≡ false
  unfolding collides set_status find_conflict
  collides-set_pending d c k [] u e n a = refl
  collides-set_pending d c k (x ∷ q) u e n a = elim (Bool-cases (str_eq x.id k)) [
    | inl m ↦
        let same : x ≡ c = cc (rw m at e) in
        let (absent, _) = set_status-absent pending none k q (key x k q m u.1) in
        rw (m, absent, same) (ground (arith, a, n))
    | inr m ↦ rw m (ground (arith, collides-set_pending d c k q u.2 (rw m at e), n, a))
  ]
    where
      key :
          (x : Conflict V) (k : String) (q : List (Conflict V))
          → str_eq x.id k ≡ true
          → find_conflict x.id q ≡ none
          → find_conflict k q ≡ none
      key x k q m e = subst (λ i. find_conflict i q ≡ none) ((str_eq_iff x.id k).0 m) e

  pub set_pending-Distinct :
      (c : Conflict V) (k : String) (q : List (Conflict V))
      → Distinct q
      → find_conflict k q ≡ some c
      → collides (restate pending none c) (without k q) ≡ false
      → Distinct (set_status pending none k q)
  unfolding set_status without collides find_conflict
  set_pending-Distinct c k [] u e n = tt
  set_pending-Distinct c k (x ∷ q) u e n = elim (Bool-cases (str_eq x.id k)) [
    | inl m ↦
        let same : x ≡ c = cc (rw m at e) in
        let (absent, whole) =
          set_status-absent pending none k q
            (subst (λ i. find_conflict i q ≡ none) ((str_eq_iff x.id k).0 m) u.1) in
        rw (m, absent) (rw same (rw whole at (rw m at n)), u.1, u.2)
    | inr m ↦
        let n' : (collide x (restate pending none c)
              || collides (restate pending none c) (without k q))
            ≡ false =
          (rw m at n) in
        rw m (
          collides-set_pending x c k q u.2 (rw m at e) u.0
              (ground (arith, collide_sym x (restate pending none c), n')),
          find_conflict-set_status x.id pending none k q u.1,
          set_pending-Distinct c k q u.2 (rw m at e) (ground (arith, n')),
        )
  ]
