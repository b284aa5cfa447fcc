-- ===== src/Conflicts/Reopen.antt =====
-- `reopen_patrol_conflict` of backend/service/conflicts.py after a decision.
use engineering_memory_agent.Common.{
  String, Bool, true, false, ◌≡◌, ◌≢◌, refl, sym, ap, subst, ◌∙◌, inl, inr, some, List, Bool-cases,
}
use engineering_memory_agent.Memory.Row.{Row, Db, Result, ok, err, value_error}
use engineering_memory_agent.Memory.Table.{is_live}
use engineering_memory_agent.Memory.Write.{Services}
use engineering_memory_agent.Memory.Resolve.{
  Resolution, Resolved, keep_existing, overwrite, merge, keep_both, unknown, conflict_resolved,
  resolve_conflict,
}
use engineering_memory_agent.Memory.Posts.{quiet}
use engineering_memory_agent.Memory.Patrol.{PatrolOutcome, resolve_patrol}
use engineering_memory_agent.Conflicts.Queue.{
  Conflict, resolved, is_pending, is_patrol, find_conflict,
}
use engineering_memory_agent.Conflicts.Service.{
  Store, is_resolution, decision, resolve_pending_conflict, both_live, reopen_patrol_conflict,
}
use engineering_memory_agent.Conflicts.Update.{restate}
use engineering_memory_agent.Conflicts.Exit.{Exited, resolve_pending_conflict-Exited}

-- The options that give the loser up.
abbrev pub is_destructive : Resolution → Bool
is_destructive keep_existing = true
is_destructive overwrite = true
is_destructive merge = true
is_destructive keep_both = false
is_destructive unknown = false

module _ {V : Type 0} where
  not_both_live :
      (c : Conflict V) (loser : String) (rows : List (Row V))
      → c.peer_id ≡ some loser
      → is_live loser rows ≡ false
      → both_live c rows ≡ false
  unfolding both_live
  not_both_live c loser rows e l = elim (Bool-cases (is_live c.existing_id rows)) [
    | inl a ↦ rw (a, e, l) refl
    | inr a ↦ rw a refl
  ]

  reopen_refused :
      (k loser : String) (s : Store V) (c : Conflict V)
      → find_conflict k s.queue ≡ some c
      → c.peer_id ≡ some loser
      → is_live loser s.db.rows ≡ false
      → reopen_patrol_conflict k s ≡ (err value_error, s)
  unfolding reopen_patrol_conflict
  reopen_refused k loser s c f e l =
      let dead = not_both_live c loser s.db.rows e l in
      elim (Bool-cases (is_pending c.status)) [
        | inl p ↦ rw (f, reopen_patrol_conflict) (rw p refl)
        | inr p ↦ elim (Bool-cases (is_patrol c.conflict_type)) [
          | inr t ↦ rw (f, reopen_patrol_conflict) (rw (p, t) refl)
          | inl t ↦ rw (f, reopen_patrol_conflict) (rw (p, t, dead) refl)
        ]
      ]

  -- What the row's decision leaves of the loser, by the answer.
  abbrev Ended : String → Result (Resolved V) → List (Row V) → Type 0
  Ended loser (ok (conflict_resolved i keep_existing)) rows = is_live loser rows ≡ false
  Ended loser (ok (conflict_resolved i overwrite)) rows = is_live loser rows ≡ false
  Ended loser (ok (conflict_resolved i merge)) rows = is_live loser rows ≡ false
  Ended loser _ rows = Unit

  ended :
      (survivor loser : String) (s : Db V) (out : Result (Resolved V)) (s' : Db V)
      → PatrolOutcome survivor loser s out s'
      → Ended loser out s'.rows
  ended survivor loser s (ok (conflict_resolved i keep_existing)) s' x = x.loser_gone
  ended survivor loser s (ok (conflict_resolved i overwrite)) s' x = x.loser_gone
  ended survivor loser s (ok (conflict_resolved i merge)) s' x = x.loser_gone
  ended survivor loser s (ok (conflict_resolved i keep_both)) s' x = tt
  ended survivor loser s (ok (conflict_resolved i unknown)) s' x = tt
  ended survivor loser s (ok (Resolved.duplicate i r t)) s' x = tt
  ended survivor loser s (ok (Resolved.written w)) s' x = tt
  ended survivor loser s (err e) s' x = tt

  loser_gone :
      (loser i : String) (q : Resolution) (rows : List (Row V))
      → is_destructive q ≡ true
      → Ended loser (ok (conflict_resolved i q)) rows
      → is_live loser rows ≡ false
  loser_gone loser i keep_existing rows d x = x
  loser_gone loser i overwrite rows d x = x
  loser_gone loser i merge rows d x = x
  loser_gone loser i keep_both rows d x = cc d
  loser_gone loser i unknown rows d x = cc d

  resolve_pending_conflict-Ended :
      (svc : Services V) (thread_id new_id k loser : String) (r : Resolution) (s : Store V)
      (c : Conflict V)
      → find_conflict k s.queue ≡ some c
      → c.peer_id ≡ some loser
      → c.existing_id ≢ loser
      → let (out, s') = resolve_pending_conflict svc quiet (λ q. q) thread_id new_id k r s in
        Ended loser out s'.db.rows
  unfolding resolve_pending_conflict
  resolve_pending_conflict-Ended svc thread_id new_id k loser r s c e peer apart =
      elim (Bool-cases (is_resolution r)) [
        | inr bad ↦ rw bad tt
        | inl good ↦ elim (Bool-cases (is_pending c.status)) [
          | inr p ↦ rw (good, e) (rw p tt)
          | inl p ↦
              rw (good, e)
                (rw p (
                  let d = decision c r thread_id new_id in
                  let (out, db) = resolve_conflict svc quiet d s.db in
                  ended c.existing_id loser s.db out db
                    (resolve_patrol svc d loser s.db apart peer)))
        ]
      ]

  -- A queued patrol conflict between two different memories whose decision was answered as
  -- `conflict_resolved` by keep_existing, overwrite or merge, with nothing else committed meanwhile, can
  -- not be reopened: the attempt is refused and changes nothing. An answer of `duplicate`, of a rewrite
  -- whose content another live memory has, is not one of those.
  pub arbitrated_stays :
      (svc : Services V) (thread_id new_id k loser i : String) (r q : Resolution) (s s' : Store V)
      (c : Conflict V)
      → find_conflict k s.queue ≡ some c
      → c.peer_id ≡ some loser
      → c.existing_id ≢ loser
      → resolve_pending_conflict svc quiet (λ l. l) thread_id new_id k r s
        ≡ (ok (conflict_resolved i q), s')
      → is_destructive q ≡ true
      → reopen_patrol_conflict k s' ≡ (err value_error, s')
  arbitrated_stays svc thread_id new_id k loser i r q s s' c e peer apart done d =
      let gone : Ended loser (ok (conflict_resolved i q)) s'.db.rows =
        subst (λ p. Ended loser p.0 p.1.db.rows) done
          (resolve_pending_conflict-Ended svc thread_id new_id k loser r s c e peer apart) in
      let (c', was, _, now) : Exited k r s (ok (conflict_resolved i q)) s' =
        subst (λ p. Exited k r s p.0 p.1) done
          (resolve_pending_conflict-Exited svc quiet thread_id new_id k r s) in
      let same : c ≡ c' = cc (e, was) in
      reopen_refused k loser s' (restate resolved (some r) c') now
        (ap (λ (x : Conflict V). x.peer_id) (sym same) ∙ peer)
        (loser_gone loser i q s'.db.rows d gone)
