-- ===== src/Conflicts/Refusal.antt =====
-- `persist_patrol_conflict` of backend/service/conflicts.py where the index on write conflicts, and
-- not the one on pairs, refuses the insert.
use engineering_memory_agent.Common.{
  String, true, ◌&&◌, ◌≡◌, refl, inl, inr, Option, none, some, List, [], ◌∷◌, arith, str_eq,
  Bool-cases,
}
use engineering_memory_agent.Memory.Row.{Row, ok, err, runtime_error}
use engineering_memory_agent.Conflicts.Queue.{
  Conflict, pending, resolved, is_pending, same_hash, not_distinct, same_content, collide, collides,
  insert_conflict, find_content, find_pair,
}
use engineering_memory_agent.Conflicts.Patrol.{Finding, build_patrol_deferred}
use engineering_memory_agent.Conflicts.Service.{patrol_conflict, queue_pair, persist_pair}

same_of_not_distinct :
    (a : Option String) (h : String) → not_distinct a (some h) ≡ true → same_hash a (some h) ≡ true
same_of_not_distinct none h e = e
same_of_not_distinct (some g) h e = e

module _ {V : Type 0} where
  collides_of_content :
      (c : Conflict V) (h : String) (q : List (Conflict V)) {d : Conflict V}
      → c.status ≡ pending
      → c.deferred.content_hash ≡ some h
      → find_content c.existing_id (some h) q ≡ some d
      → collides c q ≡ true
  unfolding collides find_content collide same_content
  collides_of_content c h [] p e f = cc
  collides_of_content c h (x ∷ q) {d} p e f =
      elim (Bool-cases (
        str_eq x.existing_id c.existing_id
        && is_pending x.status
        && not_distinct x.deferred.content_hash (some h))) [
          | inl m ↦ rw (p, e) (ground (arith, same_of_not_distinct x.deferred.content_hash h, m))
          | inr m ↦ ground (arith, collides_of_content c h q p e (rw m at f))
        ]

  -- While a row is pending with the existing memory A and the content hash of B, and the pair of A
  -- and B has no patrol row itself, also after what others commit meanwhile, queueing the pair raises
  -- the error that asks for a retry, and inserts no row.
  pub retry_refused :
      (others : List (Conflict V) → List (Conflict V)) (new_id log_id h : String) (f : Finding)
      (a b : Row V) (vec : V) (q : List (Conflict V)) (c : Conflict V)
      → b.content_hash ≡ some h
      → find_content a.id (some h) q ≡ some c
      → find_pair resolved a.id b.id q ≡ none
      → find_pair pending a.id b.id (others q) ≡ none
      → persist_pair others new_id log_id f (ok (a, b, vec)) q ≡ (err runtime_error, others q)
  unfolding persist_pair queue_pair insert_conflict build_patrol_deferred
  retry_refused others new_id log_id h f a b vec q c e found n m =
      let full = collides_of_content (patrol_conflict new_id log_id f a b vec) h q refl e found in
      rw (n, persist_pair) (rw (full, queue_pair) (rw (m, queue_pair) refl))
