-- ===== src/Memory/Resolve.antt =====
-- `resolve_conflict` and `_write_resolved_memory` of backend/service/memory.py: what a human's
-- decision does to the table. With a peer the conflict is a patrol contradiction between two stored
-- memories, of which the peer loses; without one it is between a stored memory and a new content.
use engineering_memory_agent.Common.{
  String, Bool, false, not, ◌&&◌, Option, none, some, List, [], ◌∷◌, str_eq, if◌then◌else◌,
}
use engineering_memory_agent.Common.Eq.{string_eq}
use engineering_memory_agent.Common.Dict.{union}
use engineering_memory_agent.Common.Text.{strip}
use engineering_memory_agent.Memory.Row.{
  Row, Entity, Relation, Meta, ok, err, integrity, value_error,
}
use engineering_memory_agent.Memory.Values.{merge_entities, merge_relations, record_prior_hash}
use engineering_memory_agent.Memory.Table.{
  find_by_hash, find_id, is_live, taken, update_id, soft_delete,
}
use engineering_memory_agent.Memory.Act.{Act, pure, lift, gets, modify, ◌>>=◌, ◌>>◌}
use engineering_memory_agent.Memory.Write.{Services, Others, Deferred, Written, insert_memory}

pub data Resolution : Type 0 where
  keep_existing overwrite merge keep_both unknown : Resolution

-- `duplicate` reports the winner of a race for the content hash; `written` the answer of the insert
-- that keep_both makes.
pub data Resolved (V : Type 0) : Type 0 where
  conflict_resolved : String → Resolution → Resolved V
  duplicate : String → Resolution → String → Resolved V
  written : Written V → Resolved V

-- A decision on one conflict. `thread_id` and `new_id` are for the insert of keep_both.
pub record Decision (V : Type 0) : Type 0 where
  pub resolution : Resolution
  pub existing_id : String
  pub peer_id : Option String
  pub deferred : Deferred V
  pub thread_id : String
  pub new_id : String

-- The content of the survivor.
pub record Content (V : Type 0) : Type 0 where
  pub summary : String
  pub entities : List Entity
  pub relations : List Relation
  pub embedding : V
  pub meta : Meta

-- A missing or empty hash leaves the column alone.
unfoldable pub given_hash : Option String → Option String
given_hash none = none
given_hash (some h) = if str_eq h "" then none else some h

module _ {V : Type 0} where
  -- The first statement of the transaction: the loser goes.
  unfoldable pub drop_peer : Option String → List (Row V) → List (Row V)
  drop_peer none rows = rows
  drop_peer (some peer) rows = soft_delete peer rows

  unfoldable pub resolved_row : Content V → Option String → Row V → Row V
  resolved_row c h r = record r {
    summary = c.summary;
    entities = c.entities;
    relations = c.relations;
    embedding = some c.embedding;
    meta = c.meta;
    content_hash = elim h [ none ↦ r.content_hash | some g ↦ some g ];
  }

  -- The unique index refuses the second statement.
  unfoldable pub clashes : Option String → String → List (Row V) → Bool
  clashes none k rows = false
  clashes (some h) k rows = is_live k rows && taken h k rows

  -- The second statement changes no row although it has to.
  unfoldable pub is_gone : Option String → String → List (Row V) → Bool
  is_gone none k rows = false
  is_gone (some peer) k rows = not (is_live k rows)

  -- `_find_by_content_hash` after a rollback.
  unfoldable pub winner : Resolution → Option String → Act V (Option (Resolved V))
  winner resolution none s = (err integrity, s)
  winner resolution (some h) s = elim (find_by_hash h s.rows) [
    | none ↦ (err integrity, s)
    | some w ↦ (ok (some (duplicate w.id resolution w.summary)), s)
  ]

  -- `_write_resolved_memory`: one transaction, rolled back where it raises.
  unfoldable pub write_resolved_memory :
      Others V → Decision V → Content V → Act V (Option (Resolved V))
  unfolding winner
  write_resolved_memory others d c s =
      let h = given_hash d.deferred.content_hash in
      let rows = drop_peer d.peer_id s.rows in
      if clashes h d.existing_id rows
      then winner d.resolution h (others.before_refetch s)
      else if is_gone d.peer_id d.existing_id rows
      then (err value_error, s)
      else (ok none, record s { rows = update_id d.existing_id (resolved_row c h) rows })

  -- What follows the write: the link table is brought up to date only if the write took place.
  unfoldable pub conclude : Decision V → List Entity → Option (Resolved V) → Act V (Resolved V)
  conclude d entities (some outcome) s = (ok outcome, s)
  conclude d entities none s = (
    ok (conflict_resolved d.existing_id d.resolution),
    record s { scheduled = (d.existing_id, entities) ∷ s.scheduled },
  )

  stored_meta : Option (Row V) → Meta
  stored_meta none = []
  stored_meta (some r) = r.meta

  stored_hash : Option (Row V) → Option String
  stored_hash none = none
  stored_hash (some r) = r.content_hash

  stored_summary : String → Option (Row V) → String
  stored_summary new none = new
  stored_summary new (some r) = r.summary

  stored_entities : Option (Row V) → List Entity
  stored_entities none = []
  stored_entities (some r) = r.entities

  stored_relations : Option (Row V) → List Relation
  stored_relations none = []
  stored_relations (some r) = r.relations

  unfoldable pub resolved_meta : Option (Row V) → Meta → Meta
  unfolding stored_meta stored_hash
  resolved_meta row m = record_prior_hash (union (stored_meta row) m) (stored_hash row)

  -- The end of overwrite and merge: write the survivor, then conclude.
  unfoldable pub settle : Others V → Decision V → Content V → Act V (Resolved V)
  unfolding ◌>>=◌
  settle others d c = do outcome ← write_resolved_memory others d c; conclude d c.entities outcome

  unfoldable pub overwrite_content : Decision V → Option (Row V) → Content V
  unfolding resolved_meta
  overwrite_content d row =
      let x = d.deferred.extracted in
      record {
        summary = x.summary;
        entities = x.entities;
        relations = x.relations;
        embedding = d.deferred.embedding;
        meta = resolved_meta row d.deferred.metadata;
      }

  unfoldable pub resolve_overwrite : Others V → Decision V → Act V (Resolved V)
  unfolding ◌>>=◌
  resolve_overwrite others d = do
    row ← gets (λ s. find_id d.existing_id s.rows)
    modify others.during_grading
    settle others d (overwrite_content d row)

  -- The merged text, or the new summary where the model fails.
  unfoldable pub resolved_summary : Services V → String → String → String
  resolved_summary svc existing new = elim (svc.merge_chat existing new) [
    | ok t ↦ strip (strip t)
    | err _ ↦ strip new
  ]

  unfoldable pub merge_text : Services V → Decision V → Option (Row V) → String
  unfolding resolved_summary stored_summary
  merge_text svc d row =
      let new = d.deferred.extracted.summary in resolved_summary svc (stored_summary new row) new

  unfoldable pub merge_content : Services V → Decision V → Option (Row V) → V → Content V
  unfolding merge_text stored_entities stored_relations resolved_meta
  merge_content svc d row vec =
      let x = d.deferred.extracted in
      record {
        summary = merge_text svc d row;
        entities = merge_entities (stored_entities row) x.entities;
        relations = merge_relations (stored_relations row) x.relations;
        embedding = vec;
        meta = resolved_meta row d.deferred.metadata;
      }

  unfoldable pub resolve_merge : Services V → Others V → Decision V → Act V (Resolved V)
  unfolding ◌>>=◌
  resolve_merge svc others d = do
    row ← gets (λ s. find_id d.existing_id s.rows)
    modify others.during_grading
    vec ← lift (svc.embed (merge_text svc d row))
    settle others d (merge_content svc d row vec)

  -- keep_existing, and what an unknown resolution degrades to.
  unfoldable pub resolve_keep_existing : Decision V → Act V (Resolved V)
  resolve_keep_existing d s = (
    ok (conflict_resolved d.existing_id keep_existing),
    record s { rows = drop_peer d.peer_id s.rows },
  )

  unfoldable pub resolve_keep_both : Others V → Decision V → Option String → Act V (Resolved V)
  unfolding ◌>>=◌
  resolve_keep_both others d (some peer) = pure (conflict_resolved d.existing_id keep_both)
  resolve_keep_both others d none = do
    let new = d.deferred
    w ←
        insert_memory others new.extracted new.embedding new.source_type new.metadata
          new.content_hash d.thread_id d.new_id
    pure (written w)

  unfoldable pub resolve_as : Resolution → Services V → Others V → Decision V → Act V (Resolved V)
  unfolding resolve_keep_existing resolve_overwrite resolve_merge resolve_keep_both
  resolve_as keep_existing svc others d = resolve_keep_existing d
  resolve_as overwrite svc others d = resolve_overwrite others d
  resolve_as merge svc others d = resolve_merge svc others d
  resolve_as keep_both svc others d = resolve_keep_both others d d.peer_id
  resolve_as unknown svc others d = resolve_keep_existing d

  -- The survivor of a patrol conflict has to be live before anything is done.
  unfoldable pub resolve_conflict : Services V → Others V → Decision V → Act V (Resolved V)
  unfolding resolve_as
  resolve_conflict svc others d s =
      if is_gone d.peer_id d.existing_id s.rows
      then (err value_error, s)
      else resolve_as d.resolution svc others d (others.during_extraction s)
