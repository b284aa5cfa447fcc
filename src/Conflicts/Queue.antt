-- ===== src/Conflicts/Queue.antt =====
-- The `pending_conflicts` table (migrations/versions/0001_baseline.py) and the statements that
-- backend/service/conflicts.py runs on it. The rows stand in the order in which they were created;
-- `created_at` and `resolved_at` themselves are left out.
use engineering_memory_agent.Common.{
  ℕ, String, Bool, true, false, ◌&&◌, ◌||◌, Option, none, some, List, [], ◌∷◌, ◌++◌, take, str_eq,
  if◌then◌else◌,
}
use engineering_memory_agent.Memory.Table.{hash_is}
use engineering_memory_agent.Memory.Write.{Deferred}
use engineering_memory_agent.Memory.Resolve.{Resolution}

pub data Status : Type 0 where
  pending resolved : Status

pub data ConflictType : Type 0 where
  ingestion patrol : ConflictType

pub record Conflict (V : Type 0) : Type 0 where
  pub id : String
  pub source : String
  pub source_type : String
  pub existing_id : String
  pub existing_summary : String
  pub new_summary : String
  pub deferred : Deferred V
  pub status : Status
  pub resolution : Option Resolution
  pub conflict_type : ConflictType
  pub peer_id : Option String

abbrev pub is_pending : Status → Bool
is_pending pending = true
is_pending resolved = false

abbrev pub is_patrol : ConflictType → Bool
is_patrol ingestion = false
is_patrol patrol = true

abbrev pub same_status : Status → Status → Bool
same_status pending s = is_pending s
same_status resolved pending = false
same_status resolved resolved = true

abbrev pub same_type : ConflictType → ConflictType → Bool
same_type patrol t = is_patrol t
same_type ingestion patrol = false
same_type ingestion ingestion = true

-- Equality of two columns that may be NULL: never true of a NULL.
abbrev pub same_hash : Option String → Option String → Bool
same_hash none g = false
same_hash (some h) g = hash_is h g

-- IS NOT DISTINCT FROM
abbrev pub not_distinct : Option String → Option String → Bool
not_distinct none none = true
not_distinct none (some g) = false
not_distinct (some h) g = hash_is h g

module _ {V : Type 0} where
  -- LEAST and GREATEST of the two ids are those of `a` and `b`: the same unordered pair.
  unfoldable pub has_pair : String → String → Conflict V → Bool
  has_pair a b c = elim c.peer_id [
    | none ↦ false
    | some peer ↦
        (str_eq c.existing_id a && str_eq peer b) || (str_eq c.existing_id b && str_eq peer a)
  ]

  -- The key of `uq_pending_conflicts_open_dedup`, a partial index on the pending rows.
  unfoldable pub same_content : Conflict V → Conflict V → Bool
  same_content c d =
      str_eq c.existing_id d.existing_id
      && same_hash c.deferred.content_hash d.deferred.content_hash

  -- The key of `uq_pending_conflicts_patrol_pair`, a partial index on the pending patrol rows.
  unfoldable pub same_pair : Conflict V → Conflict V → Bool
  unfolding has_pair
  same_pair c d =
      is_patrol c.conflict_type
      && is_patrol d.conflict_type
      && elim d.peer_id [ none ↦ false | some peer ↦ has_pair d.existing_id peer c ]

  -- Two pending rows that one of the indexes does not allow side by side.
  unfoldable pub collide : Conflict V → Conflict V → Bool
  unfolding same_content same_pair
  collide c d = is_pending c.status && is_pending d.status && (same_content c d || same_pair c d)

  unfoldable pub collides : Conflict V → List (Conflict V) → Bool
  unfolding collide
  collides c [] = false
  collides c (d ∷ queue) = collide d c || collides c queue

  -- INSERT … ON CONFLICT DO NOTHING RETURNING id
  unfoldable pub insert_conflict : Conflict V → List (Conflict V) → Option (List (Conflict V))
  insert_conflict c queue = if collides c queue then none else some (queue ++ c ∷ [])

  -- The pending row with this existing memory and new content, the oldest first.
  unfoldable pub find_content : String → Option String → List (Conflict V) → Option (Conflict V)
  find_content i h [] = none
  find_content i h (c ∷ queue) =
      if str_eq c.existing_id i && is_pending c.status && not_distinct c.deferred.content_hash h
      then some c
      else find_content i h queue

  -- The patrol row of this pair with this status, the oldest first.
  unfoldable pub find_pair : Status → String → String → List (Conflict V) → Option (Conflict V)
  find_pair s a b [] = none
  find_pair s a b (c ∷ queue) =
      if is_patrol c.conflict_type && same_status s c.status && has_pair a b c
      then some c
      else find_pair s a b queue

  -- SELECT … WHERE id = :id
  unfoldable pub find_conflict : String → List (Conflict V) → Option (Conflict V)
  find_conflict k [] = none
  find_conflict k (c ∷ queue) = if str_eq c.id k then some c else find_conflict k queue

  -- UPDATE … SET status, resolution WHERE id = :id
  unfoldable pub set_status :
      Status → Option Resolution → String → List (Conflict V) → List (Conflict V)
  set_status s r k [] = []
  set_status s r k (c ∷ queue) =
      (if str_eq c.id k then record c { status = s; resolution = r } else c)
      ∷ set_status s r k queue

  -- The rows other than `k`.
  unfoldable pub without : String → List (Conflict V) → List (Conflict V)
  without k [] = []
  without k (c ∷ queue) = if str_eq c.id k then without k queue else c ∷ without k queue

  unfoldable pub is_listed : Status → Option ConflictType → Conflict V → Bool
  is_listed s none c = same_status s c.status
  is_listed s (some t) c = same_status s c.status && same_type t c.conflict_type

  -- The filter of `list_pending_conflicts`, the newest first.
  unfoldable pub newest_first : Status → Option ConflictType → List (Conflict V) → List (Conflict V)
  unfolding is_listed
  newest_first s t [] = []
  newest_first s t (c ∷ queue) = newest_first s t queue ++ (if is_listed s t c then c ∷ [] else [])

  -- `list_pending_conflicts`
  unfoldable pub list_pending_conflicts :
      ℕ → Option ConflictType → Status → List (Conflict V) → List (Conflict V)
  unfolding newest_first
  list_pending_conflicts limit t s queue = take limit (newest_first s t queue)
