-- ===== src/Conflicts/Undo.antt =====
-- keep_both on a patrol conflict, followed by `reopen_patrol_conflict` (backend/service/conflicts.py).
use engineering_memory_agent.Common.{
  String, true, false, ◌≡◌, refl, sym, ap, subst, ◌∙◌, inl, inr, Option, none, some, List, [], ◌∷◌,
  arith, str_eq, str_eq_iff, Bool-cases,
}
use engineering_memory_agent.Memory.Row.{ok}
use engineering_memory_agent.Memory.Table.{is_live}
use engineering_memory_agent.Memory.Write.{Services}
use engineering_memory_agent.Memory.Resolve.{
  Resolution, keep_both, conflict_resolved, is_gone, resolve_as, resolve_keep_both,
  resolve_conflict,
}
use engineering_memory_agent.Memory.Posts.{quiet}
use engineering_memory_agent.Conflicts.Queue.{
  Conflict, Status, pending, resolved, is_pending, patrol, collide, collides, find_conflict,
  set_status, without,
}
use engineering_memory_agent.Conflicts.Service.{
  Store, reopened, is_resolution, mark_resolved, resolve_pending_conflict, both_live,
  reopen_patrol_conflict,
}
use engineering_memory_agent.Conflicts.Distinct.{Distinct, collide_sym}
use engineering_memory_agent.Conflicts.Update.{restate, set_status-absent}
use engineering_memory_agent.Conflicts.Exit.{find_conflict-set_status_self}

module _ {V : Type 0} where
  found_head :
      (k : String) (d : Conflict V) (q : List (Conflict V)) {c : Conflict V}
      → str_eq d.id k ≡ true
      → find_conflict k (d ∷ q) ≡ some c
      → d ≡ c
  unfolding find_conflict
  found_head k d q m e = cc (rw m at e)

  set_status_back :
      (k : String) (r : Option Resolution) (q : List (Conflict V)) {c : Conflict V}
      → Distinct q
      → find_conflict k q ≡ some c
      → restate pending none c ≡ c
      → set_status pending none k (set_status resolved r k q) ≡ q
  unfolding set_status find_conflict
  set_status_back k r [] u e same = refl
  set_status_back k r (d ∷ q) {c} u e same = elim (Bool-cases (str_eq d.id k)) [
    | inl m ↦
        let absent : find_conflict k q ≡ none =
          subst (λ i. find_conflict i q ≡ none) ((str_eq_iff d.id k).0 m) u.1 in
        let tail : set_status pending none k (set_status resolved r k q) ≡ q =
          ap (set_status pending none k) (set_status-absent resolved r k q absent).0
          ∙ (set_status-absent pending none k q absent).0 in
        let same' : restate pending none d ≡ d =
          subst (λ x. restate pending none x ≡ x) (sym (found_head k d q m e)) same in
        rw m (rw (m, tail) (ap (λ x. x ∷ q) same'))
    | inr m ↦ rw m (rw m (ap (λ l. d ∷ l) (set_status_back k r q u.2 (rw m at e) same)))
  ]

  without-set_status :
      (k : String) (t : Status) (r : Option Resolution) (q : List (Conflict V))
      → without k (set_status t r k q) ≡ without k q
  unfolding without set_status
  without-set_status k t r [] = refl
  without-set_status k t r (d ∷ q) = elim (Bool-cases (str_eq d.id k)) [
    | inl m ↦ rw m (rw m (without-set_status k t r q))
    | inr m ↦ rw m (rw m (ap (λ l. d ∷ l) (without-set_status k t r q)))
  ]

  collide_member :
      (k : String) (d : Conflict V) (q : List (Conflict V)) {c : Conflict V}
      → collides d q ≡ false
      → find_conflict k q ≡ some c
      → collide c d ≡ false
  unfolding collides find_conflict
  collide_member k d [] n e = cc
  collide_member k d (x ∷ q) {c} n e = elim (Bool-cases (str_eq x.id k)) [
    | inl m ↦ let same : x ≡ c = cc (rw m at e) in rw (← same) (ground (arith, n))
    | inr m ↦ collide_member k d q (ground (arith, n)) (rw m at e)
  ]

  apart_from_rest :
      (k : String) (q : List (Conflict V)) {c : Conflict V}
      → Distinct q
      → find_conflict k q ≡ some c
      → collides c (without k q) ≡ false
  unfolding without find_conflict collides
  apart_from_rest k [] u e = cc
  apart_from_rest k (d ∷ q) {c} u e = elim (Bool-cases (str_eq d.id k)) [
    | inl m ↦
        let absent : find_conflict k q ≡ none =
          subst (λ i. find_conflict i q ≡ none) ((str_eq_iff d.id k).0 m) u.1 in
        rw (m, (set_status-absent pending none k q absent).1)
          (subst (λ x. collides x q ≡ false) (found_head k d q m e) u.0)
    | inr m ↦
        let e' = rw m at e in
        rw m (
          rw (apart_from_rest k q u.2 e')
            (ground (arith, collide_sym d c, collide_member k d q u.0 e')))
  ]

  keeps_both :
      (svc : Services V) (thread_id new_id k loser : String) (s : Store V) (c : Conflict V)
      → find_conflict k s.queue ≡ some c
      → is_pending c.status ≡ true
      → c.peer_id ≡ some loser
      → is_live c.existing_id s.db.rows ≡ true
      → resolve_pending_conflict svc quiet (λ q. q) thread_id new_id k keep_both s ≡ (
        ok (conflict_resolved c.existing_id keep_both),
        record s { queue = set_status resolved (some keep_both) k s.queue },
      )
  unfolding resolve_pending_conflict is_resolution resolve_conflict resolve_as resolve_keep_both
      is_gone mark_resolved
  keeps_both svc thread_id new_id k loser s c e p peer live =
      rw (e, resolve_pending_conflict) (rw (p, peer, live) refl)

  reopens :
      (k loser : String) (s : Store V) (c : Conflict V)
      → find_conflict k s.queue ≡ some c
      → c.status ≡ resolved
      → c.conflict_type ≡ patrol
      → c.peer_id ≡ some loser
      → is_live c.existing_id s.db.rows ≡ true
      → is_live loser s.db.rows ≡ true
      → collides (restate pending none c) (without k s.queue) ≡ false
      → reopen_patrol_conflict k s
        ≡ (ok reopened, record s { queue = set_status pending none k s.queue })
  unfolding reopen_patrol_conflict both_live
  reopens k loser s c e p t peer live live' free =
      let both : both_live c s.db.rows ≡ true = rw (live, peer, live') refl in
      rw (e, reopen_patrol_conflict) (rw (free, p, both, t) refl)

  -- A pending patrol row with two live memories that was never decided: resolving it as keep_both,
  -- with nothing else committed meanwhile, and reopening it succeeds and restores both the memories
  -- and the queue, from any queue without colliding pending rows.
  pub keep_both_reopens :
      (svc : Services V) (thread_id new_id k loser : String) (s : Store V) (c : Conflict V)
      → Distinct s.queue
      → find_conflict k s.queue ≡ some c
      → c.status ≡ pending
      → c.resolution ≡ none
      → c.conflict_type ≡ patrol
      → c.peer_id ≡ some loser
      → is_live c.existing_id s.db.rows ≡ true
      → is_live loser s.db.rows ≡ true
      → reopen_patrol_conflict k
          (resolve_pending_conflict svc quiet (λ q. q) thread_id new_id k keep_both s).1
        ≡ (ok reopened, s)
  keep_both_reopens svc thread_id new_id k loser s c u e p n t peer live live' =
      let same : restate pending none c ≡ c = cc (p, n) in
      let closed : Store V = record s { queue = set_status resolved (some keep_both) k s.queue } in
      let free : collides (restate pending none c) (without k closed.queue) ≡ false =
        rw (same, without-set_status k resolved (some keep_both) s.queue)
          (apart_from_rest k s.queue u e) in
      let marked = find_conflict-set_status_self k resolved (some keep_both) s.queue e in
      let back =
        reopens k loser closed (restate resolved (some keep_both) c) marked refl t peer live live'
          free in
      ap (λ x. reopen_patrol_conflict k x.1)
        (keeps_both svc thread_id new_id k loser s c e (ap is_pending p) peer live)
      ∙ back
      ∙ ap (λ q. (ok reopened, record s { queue = q }))
          (set_status_back k (some keep_both) s.queue u e same)
