-- ===== src/Conflicts/Service.antt =====
-- The operations of backend/service/conflicts.py on the memories and the queue.
use engineering_memory_agent.Common.{
  String, Bool, true, false, not, Option, none, some, List, str_eq, if◌then◌else◌,
}
use engineering_memory_agent.Memory.Row.{
  Row, Db, Result, ok, err, value_error, runtime_error, integrity,
}
use engineering_memory_agent.Memory.Table.{is_live}
use engineering_memory_agent.Memory.Write.{Services, Others, Written, Deferred, conflict}
use engineering_memory_agent.Memory.Resolve.{
  Resolution, Resolved, Decision, keep_existing, overwrite, merge, keep_both, unknown,
  resolve_conflict,
}
use engineering_memory_agent.Conflicts.Queue.{
  Conflict, pending, resolved, ingestion, patrol, is_pending, is_patrol, collides, insert_conflict,
  find_content, find_pair, find_conflict, set_status, without,
}
use engineering_memory_agent.Conflicts.Patrol.{
  Ids, Finding, load_patrol_pair, build_patrol_deferred,
}

pub record Store (V : Type 0) : Type 0 where
  pub db : Db V
  pub queue : List (Conflict V)

-- What `persist_patrol_conflict` answers, with the id of the row.
pub data Queued : Type 0 where
  queued already_pending already_resolved : String → Queued

-- The answer of `reopen_patrol_conflict`.
pub data Reopened : Type 0 where
  reopened : Reopened

-- `_RESOLUTIONS`
unfoldable pub is_resolution : Resolution → Bool
is_resolution unknown = false
is_resolution keep_existing = true
is_resolution overwrite = true
is_resolution merge = true
is_resolution keep_both = true

module _ {V : Type 0} where
  abbrev pub new_conflict : String → String → String → String → String → Deferred V → Conflict V
  new_conflict new_id source i existing_summary new_summary d = record {
    id = new_id;
    source = source;
    source_type = d.source_type;
    existing_id = i;
    existing_summary = existing_summary;
    new_summary = new_summary;
    deferred = d;
    status = pending;
    resolution = none;
    conflict_type = ingestion;
    peer_id = none;
  }

  -- The id of the row that an insert gave or found, and the queue.
  abbrev pub found_id : Option (Conflict V) → Result String
  found_id none = err runtime_error
  found_id (some c) = ok c.id

  -- The body of `persist_pending_conflict`. `others` is what other requests commit to the queue between
  -- a refused insert and the search for the row that refused it; a search that finds none raises.
  unfoldable pub persist :
      (List (Conflict V) → List (Conflict V))
      → Conflict V
      → List (Conflict V)
      → Result String × List (Conflict V)
  persist others c queue = elim (insert_conflict c queue) [
    | some queue' ↦ (ok c.id, queue')
    | none ↦
        (found_id (find_content c.existing_id c.deferred.content_hash (others queue)), others queue)
  ]

  -- `persist_pending_conflict` on the answer of a write: only a conflict has what it needs.
  unfoldable pub persist_pending_conflict :
      (List (Conflict V) → List (Conflict V))
      → String
      → String
      → Written V
      → List (Conflict V)
      → Result String × List (Conflict V)
  unfolding persist
  persist_pending_conflict others new_id source (conflict i t d) queue =
      if str_eq i ""
      then (err value_error, queue)
      else persist others (new_conflict new_id source i t d.extracted.summary d) queue
  persist_pending_conflict others new_id source _ queue = (err value_error, queue)

  abbrev pub patrol_conflict : String → String → Finding → Row V → Row V → V → Conflict V
  patrol_conflict new_id log_id f a b vec = record {
    id = new_id;
    source = "patrol";
    source_type = b.source_type;
    existing_id = a.id;
    existing_summary = a.summary;
    new_summary = b.summary;
    deferred = build_patrol_deferred a b vec f log_id;
    status = pending;
    resolution = none;
    conflict_type = patrol;
    peer_id = some b.id;
  }

  abbrev pub found_pair : Option (Conflict V) → Result Queued
  found_pair none = err runtime_error
  found_pair (some p) = ok (already_pending p.id)

  -- The end of `persist_patrol_conflict`: the insert, or the row of the pair that stands against it.
  -- `others` is as for `persist`.
  unfoldable pub queue_pair :
      (List (Conflict V) → List (Conflict V))
      → Conflict V
      → String
      → String
      → List (Conflict V)
      → Result Queued × List (Conflict V)
  queue_pair others c a b queue = elim (insert_conflict c queue) [
    | some queue' ↦ (ok (queued c.id), queue')
    | none ↦ (found_pair (find_pair pending a b (others queue)), others queue)
  ]

  -- What follows the loading of the pair.
  unfoldable pub persist_pair :
      (List (Conflict V) → List (Conflict V))
      → String
      → String
      → Finding
      → Result (Row V × Row V × V)
      → List (Conflict V)
      → Result Queued × List (Conflict V)
  unfolding queue_pair
  persist_pair others new_id log_id f (err e) queue = (err e, queue)
  persist_pair others new_id log_id f (ok (a, b, vec)) queue =
      elim (find_pair resolved a.id b.id queue) [
        | some p ↦ (ok (already_resolved p.id), queue)
        | none ↦ queue_pair others (patrol_conflict new_id log_id f a b vec) a.id b.id queue
      ]

  unfoldable pub persist_patrol_conflict :
      (List (Conflict V) → List (Conflict V))
      → Ids
      → String
      → String
      → Finding
      → Store V
      → Result Queued × Store V
  unfolding persist_pair
  persist_patrol_conflict others ids new_id log_id f s =
      let (r, queue) =
        persist_pair others new_id log_id f (load_patrol_pair ids s.db.rows f) s.queue in
      (r, record s { queue = queue })

  -- What `resolve_pending_conflict` asks of `resolve_conflict`.
  abbrev pub decision : Conflict V → Resolution → String → String → Decision V
  decision c r thread_id new_id = record {
    resolution = r;
    existing_id = c.existing_id;
    peer_id = c.peer_id;
    deferred = c.deferred;
    thread_id = thread_id;
    new_id = new_id;
  }

  -- The row is marked only where the resolution returned.
  unfoldable pub mark_resolved :
      Resolution → String → Result (Resolved V) → List (Conflict V) → List (Conflict V)
  mark_resolved r k (err e) queue = queue
  mark_resolved r k (ok outcome) queue = set_status resolved (some r) k queue

  -- `resolve_pending_conflict`; `during` is what others do to the queue while it works.
  unfoldable pub resolve_pending_conflict :
      Services V
      → Others V
      → (List (Conflict V) → List (Conflict V))
      → String
      → String
      → String
      → Resolution
      → Store V
      → Result (Resolved V) × Store V
  unfolding is_resolution mark_resolved
  resolve_pending_conflict svc others during thread_id new_id k r s =
      if not (is_resolution r) then (err value_error, s) else elim (find_conflict k s.queue) [
        | none ↦ (err value_error, s)
        | some c ↦
            if not (is_pending c.status)
            then (err value_error, s)
            else let (out, db) = resolve_conflict svc others (decision c r thread_id new_id) s.db in
              (out, record s { db = db; queue = mark_resolved r k out (during s.queue) })
      ]

  -- Both memories of the pair have to be live (`_require_live_memory`, twice).
  unfoldable pub both_live : Conflict V → List (Row V) → Bool
  both_live c rows =
      if is_live c.existing_id rows
      then elim c.peer_id [ none ↦ true | some peer ↦ is_live peer rows ]
      else false

  -- `reopen_patrol_conflict`: the update raises where a unique index forbids the row to be pending.
  unfoldable pub reopen_patrol_conflict : String → Store V → Result Reopened × Store V
  unfolding both_live
  reopen_patrol_conflict k s = elim (find_conflict k s.queue) [
    | none ↦ (err value_error, s)
    | some c ↦
        if is_pending c.status
        then (err value_error, s)
        else if not (is_patrol c.conflict_type)
        then (err value_error, s)
        else if not (both_live c s.db.rows)
        then (err value_error, s)
        else if collides (record c { status = pending; resolution = none }) (without k s.queue)
        then (err integrity, s)
        else (ok reopened, record s { queue = set_status pending none k s.queue })
  ]
