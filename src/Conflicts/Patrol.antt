-- ===== src/Conflicts/Patrol.antt =====
-- backend/service/conflicts.py: how a patrol finding is turned into a pair of stored memories
-- (`_resolve_patrol_ids`, `load_patrol_pair`) and the payload of its conflict
-- (`build_patrol_deferred`).
use engineering_memory_agent.Common.{
  String, Bool, not, ◌&&◌, Option, none, some, List, [], ◌∷◌, str_eq, if◌then◌else◌,
}
use engineering_memory_agent.Common.Text.{strip}
use engineering_memory_agent.Memory.Row.{Row, text, Result, ok, err, value_error}
use engineering_memory_agent.Memory.Table.{find_id}
use engineering_memory_agent.Memory.Write.{Deferred}

-- What lies outside this code: whether Python's `UUID` accepts a text, and the first 8 characters of
-- an id in the database.
pub record Ids : Type 0 where
  pub is_uuid : String → Bool
  pub short : String → String

-- A missing id is "".
pub record Finding : Type 0 where
  pub memory_a_id : String
  pub memory_b_id : String
  pub conflict_description : Option String
  pub severity : Option String

unfoldable pub or_else : Option String → String → String
or_else none d = d
or_else (some s) d = s

abbrev pub both_ids : Result String → Result String → Result (String × String)
both_ids (ok a) (ok b) = ok (a, b)
both_ids (ok a) (err e) = err e
both_ids (err e) b = err e

module _ {V : Type 0} where
  unfoldable pub with_prefix : Ids → String → List (Row V) → List (Row V)
  with_prefix ids p [] = []
  with_prefix ids p (r ∷ rows) =
      if str_eq (ids.short r.id) p && not r.deleted
      then r ∷ with_prefix ids p rows
      else with_prefix ids p rows

  -- One pass of the loop of `_resolve_patrol_ids`.
  unfoldable pub resolve_patrol_id : Ids → List (Row V) → String → Result String
  unfolding with_prefix
  resolve_patrol_id ids rows raw =
      if ids.is_uuid raw then ok raw else elim (with_prefix ids raw rows) [
        | [] ↦ err value_error
        | r ∷ [] ↦ ok r.id
        | r ∷ q ∷ rest ↦ err value_error
      ]

  unfoldable pub resolve_patrol_ids :
      Ids → List (Row V) → String → String → Result (String × String)
  unfolding resolve_patrol_id
  resolve_patrol_ids ids rows a b =
      both_ids (resolve_patrol_id ids rows a) (resolve_patrol_id ids rows b)

  -- A memory of the query of `load_patrol_pair`, with its embedding.
  unfoldable pub find_embedded : String → List (Row V) → Result (Row V × V)
  find_embedded k rows = elim (find_id k rows) [
    | none ↦ err value_error
    | some r ↦
        if r.deleted
        then err value_error
        else elim r.embedding [ none ↦ err value_error | some v ↦ ok (r, v) ]
  ]

  abbrev pub both_rows : Result (Row V × V) → Result (Row V × V) → Result (Row V × Row V × V)
  both_rows (ok (r, _)) (ok (q, v)) = ok (r, q, v)
  both_rows (ok r) (err e) = err e
  both_rows (err e) q = err e

  unfoldable pub load_pair : List (Row V) → Result (String × String) → Result (Row V × Row V × V)
  unfolding find_embedded
  load_pair rows (ok (a, b)) = both_rows (find_embedded a rows) (find_embedded b rows)
  load_pair rows (err e) = err e

  -- `load_patrol_pair`: the rows of A and B, which carry their ids, and the embedding of B.
  unfoldable pub load_patrol_pair : Ids → List (Row V) → Finding → Result (Row V × Row V × V)
  unfolding resolve_patrol_ids load_pair
  load_patrol_pair ids rows f =
      let a = strip f.memory_a_id in
      let b = strip f.memory_b_id in
      if str_eq a ""
      then err value_error
      else if str_eq b ""
      then err value_error
      else if str_eq a b
      then err value_error
      else load_pair rows (resolve_patrol_ids ids rows a b)

  unfoldable pub build_patrol_deferred : Row V → Row V → V → Finding → String → Deferred V
  unfolding or_else
  build_patrol_deferred a b vec f log_id = record {
    extracted = record { summary = b.summary; entities = b.entities; relations = b.relations };
    embedding = vec;
    source_type = b.source_type;
    metadata =
        ("conflicts_with", text a.id)
        ∷ ("conflicting_summary", text a.summary)
        ∷ ("peer_id", text b.id)
        ∷ ("peer_summary", text b.summary)
        ∷ ("conflict_description", text (or_else f.conflict_description ""))
        ∷ ("severity", text (or_else f.severity "info"))
        ∷ ("patrol_log_id", text log_id)
        ∷ [];
    content_hash = b.content_hash;
  }
