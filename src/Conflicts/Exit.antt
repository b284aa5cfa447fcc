-- ===== src/Conflicts/Exit.antt =====
-- `resolve_pending_conflict` of backend/service/conflicts.py: what it leaves of its row.
use engineering_memory_agent.Common.{
  String, true, false, ◌≡◌, refl, subst, inl, inr, Option, some, List, [], ◌∷◌, str_eq, Bool-cases,
  Option-cases,
}
use engineering_memory_agent.Memory.Row.{Db, Result, ok, err, value_error}
use engineering_memory_agent.Memory.Write.{Services, Others}
use engineering_memory_agent.Memory.Resolve.{Resolution, Resolved, resolve_conflict}
use engineering_memory_agent.Conflicts.Queue.{
  Conflict, Status, resolved, is_pending, find_conflict, set_status,
}
use engineering_memory_agent.Conflicts.Service.{
  Store, is_resolution, decision, mark_resolved, resolve_pending_conflict,
}
use engineering_memory_agent.Conflicts.Update.{restate}

module _ {V : Type 0} where
  pub find_conflict-set_status_self :
      (k : String) (t : Status) (r : Option Resolution) (q : List (Conflict V)) {c : Conflict V}
      → find_conflict k q ≡ some c
      → find_conflict k (set_status t r k q) ≡ some (restate t r c)
  unfolding find_conflict set_status
  find_conflict-set_status_self k t r [] e = cc
  find_conflict-set_status_self k t r (d ∷ q) {c} e = elim (Bool-cases (str_eq d.id k)) [
    | inl m ↦
        let same : d ≡ c = cc (rw m at e) in
        rw (m, same) (rw (subst (λ x. str_eq x.id k ≡ true) same m) refl)
    | inr m ↦ rw m (rw m (find_conflict-set_status_self k t r q (rw m at e)))
  ]

  -- What one resolution of the row `k` comes to.
  abbrev pub Exited : String → Resolution → Store V → Result (Resolved V) → Store V → Type 0
  Exited k r s (err e) s' = s'.queue ≡ s.queue
  Exited k r s (ok out) s' =
      (c : Conflict V) × (find_conflict k s.queue ≡ some c)
      × (is_pending c.status ≡ true)
      × (find_conflict k s'.queue ≡ some (restate resolved (some r) c))

  exited :
      (k : String) (r : Resolution) (s : Store V) (c : Conflict V) (out : Result (Resolved V))
      (db : Db V)
      → find_conflict k s.queue ≡ some c
      → is_pending c.status ≡ true
      → Exited k r s out (record s { db = db; queue = mark_resolved r k out s.queue })
  unfolding mark_resolved
  exited k r s c (err e) db f p = refl
  exited k r s c (ok out) db f p =
      (c, f, p, find_conflict-set_status_self k resolved (some r) s.queue f)

  pub resolve_pending_conflict-Exited :
      (svc : Services V) (others : Others V) (thread_id new_id k : String) (r : Resolution)
      (s : Store V)
      → let (out, s') = resolve_pending_conflict svc others (λ q. q) thread_id new_id k r s in
        Exited k r s out s'
  unfolding resolve_pending_conflict
  resolve_pending_conflict-Exited svc others thread_id new_id k r s =
      elim (Bool-cases (is_resolution r)) [
        | inr bad ↦ rw bad refl
        | inl good ↦ elim (Option-cases (find_conflict k s.queue)) [
          | inl e ↦ rw (good, e) refl
          | inr (c, e) ↦ elim (Bool-cases (is_pending c.status)) [
            | inr p ↦ rw (good, e) (rw p refl)
            | inl p ↦
                rw (good, e)
                  (rw p (
                    let (out, db) =
                      resolve_conflict svc others (decision c r thread_id new_id) s.db in
                    exited k r s c out db e p))
          ]
        ]
      ]

  refused :
      (svc : Services V) (others : Others V) (during : List (Conflict V) → List (Conflict V))
      (thread_id new_id k : String) (r : Resolution) (s : Store V) (c : Conflict V)
      → find_conflict k s.queue ≡ some c
      → is_pending c.status ≡ false
      → resolve_pending_conflict svc others during thread_id new_id k r s ≡ (err value_error, s)
  unfolding resolve_pending_conflict
  refused svc others during thread_id new_id k r s c e p = elim (Bool-cases (is_resolution r)) [
    | inr bad ↦ rw (bad, resolve_pending_conflict) refl
    | inl good ↦ rw (good, e, resolve_pending_conflict) (rw (p, resolve_pending_conflict) refl)
  ]

  -- What follows from an exit: a failure left the row as it was, a success closed it for good.
  abbrev pub Closed : String → Store V → Result (Resolved V) → Store V → Type 0
  Closed k s (err e) s' = s'.queue ≡ s.queue
  Closed k s (ok out) s' =
      (svc : Services V) (others : Others V) (during : List (Conflict V) → List (Conflict V))
      (thread_id new_id : String) (r : Resolution)
      → resolve_pending_conflict svc others during thread_id new_id k r s' ≡ (err value_error, s')

  closed :
      (k : String) (r : Resolution) (s s' : Store V) (out : Result (Resolved V))
      → Exited k r s out s'
      → Closed k s out s'
  closed k r s s' (err e) x = x
  closed k r s s' (ok out) (c, f, p, g) = λ svc others during thread_id new_id r'.
      refused svc others during thread_id new_id k r' s' (restate resolved (some r) c) g refl

  -- Where resolving a conflict raises, the queue is as before, so that a retry finds the row pending,
  -- provided that nothing else changed the queue meanwhile. Where it returns, every further
  -- resolution of that row, with whatever option, is refused and changes neither the memories nor
  -- the queue.
  pub resolved_once :
      (svc : Services V) (others : Others V) (thread_id new_id k : String) (r : Resolution)
      (s : Store V)
      → let (out, s') = resolve_pending_conflict svc others (λ q. q) thread_id new_id k r s in
        Closed k s out s'
  resolved_once svc others thread_id new_id k r s =
      let (out, s') = resolve_pending_conflict svc others (λ q. q) thread_id new_id k r s in
      closed k r s s' out (resolve_pending_conflict-Exited svc others thread_id new_id k r s)
