-- ===== src/Conflicts/SelfPair.antt =====
-- A patrol finding that names one memory twice, by its full id and by its short one, in
-- backend/service/conflicts.py.
use engineering_memory_agent.Common.{String, true, false, ◌≡◌, refl, str_eq}
use engineering_memory_agent.Common.Text.{strip}
use engineering_memory_agent.Memory.Row.{Row, Db, ok}
use engineering_memory_agent.Memory.Table.{is_live}
use engineering_memory_agent.Memory.Write.{Services}
use engineering_memory_agent.Memory.Resolve.{
  keep_existing, conflict_resolved, drop_peer, is_gone, resolve_keep_existing, resolve_as,
  resolve_conflict,
}
use engineering_memory_agent.Memory.Live.{is_live-soft_delete_self}
use engineering_memory_agent.Memory.Posts.{quiet}
use engineering_memory_agent.Conflicts.Patrol.{
  Ids, Finding, resolve_patrol_id, resolve_patrol_ids, find_embedded, load_pair, load_patrol_pair,
}
use engineering_memory_agent.Conflicts.Service.{decision, patrol_conflict}

module _ {V : Type 0} where
  load_self :
      (ids : Ids) (s : Db V) (f : Finding) (r : Row V) (vec : V)
      → str_eq (strip f.memory_a_id) "" ≡ false
      → str_eq (strip f.memory_b_id) "" ≡ false
      → str_eq (strip f.memory_a_id) (strip f.memory_b_id) ≡ false
      → resolve_patrol_id ids s.rows (strip f.memory_a_id) ≡ ok r.id
      → resolve_patrol_id ids s.rows (strip f.memory_b_id) ≡ ok r.id
      → find_embedded r.id s.rows ≡ ok (r, vec)
      → load_patrol_pair ids s.rows f ≡ ok (r, r, vec)
  unfolding load_patrol_pair resolve_patrol_ids load_pair
  load_self ids s f r vec a b ab ra rb found = rw (a, b, ab, ra, rb, found) refl

  keep_existing_self :
      (svc : Services V) (new_id log_id thread_id row_id : String) (s : Db V) (f : Finding)
      (r : Row V) (vec : V)
      → is_live r.id s.rows ≡ true
      → let (out, s') =
          resolve_conflict svc quiet
            (decision (patrol_conflict new_id log_id f r r vec) keep_existing thread_id row_id)
            s in
        (out ≡ ok (conflict_resolved r.id keep_existing)) × (is_live r.id s'.rows ≡ false)
  unfolding resolve_conflict resolve_as resolve_keep_existing drop_peer is_gone
  keep_existing_self svc new_id log_id thread_id row_id s f r vec live =
      rw live (refl, is_live-soft_delete_self r.id s.rows)

  -- A patrol finding whose two different ids resolve to one live memory passes every check of
  -- `load_patrol_pair`, as a pair of that memory with itself, and resolving the conflict of that
  -- pair as keep_existing, with nothing else committed meanwhile, succeeds and deletes the memory.
  pub self_pair_deleted :
      (ids : Ids) (svc : Services V) (new_id log_id thread_id row_id : String) (s : Db V)
      (f : Finding) (r : Row V) (vec : V)
      → str_eq (strip f.memory_a_id) "" ≡ false
      → str_eq (strip f.memory_b_id) "" ≡ false
      → str_eq (strip f.memory_a_id) (strip f.memory_b_id) ≡ false
      → resolve_patrol_id ids s.rows (strip f.memory_a_id) ≡ ok r.id
      → resolve_patrol_id ids s.rows (strip f.memory_b_id) ≡ ok r.id
      → find_embedded r.id s.rows ≡ ok (r, vec)
      → is_live r.id s.rows ≡ true
      → let (out, s') =
          resolve_conflict svc quiet
            (decision (patrol_conflict new_id log_id f r r vec) keep_existing thread_id row_id)
            s in
        (load_patrol_pair ids s.rows f ≡ ok (r, r, vec))
        × (out ≡ ok (conflict_resolved r.id keep_existing))
        × (is_live r.id s'.rows ≡ false)
  self_pair_deleted ids svc new_id log_id thread_id row_id s f r vec a b ab ra rb found live =
      let (answered, gone) = keep_existing_self svc new_id log_id thread_id row_id s f r vec live in
      (load_self ids s f r vec a b ab ra rb found, answered, gone)
