-- ===== src/Memory/Write.antt =====
-- `write_memory` of backend/service/memory.py and the four ways in which it ends.
use engineering_memory_agent.Common.{
  ℕ, String, Bool, true, false, ◌&&◌, ◌||◌, Option, none, some, List, [], ◌∷◌, leb, ltb, str_eq,
  if◌then◌else◌,
}
use engineering_memory_agent.Common.Eq.{string_eq}
use engineering_memory_agent.Common.Dict.{get, put, union}
use engineering_memory_agent.Common.Text.{strip}
use engineering_memory_agent.Memory.Row.{
  Row, Db, Extracted, Meta, text, texts, Error, Result, ok, err, structured, circuit_open,
  integrity, runtime_error,
}
use engineering_memory_agent.Memory.Values.{
  merge_entities, merge_relations, record_prior_hash, contains, as_texts,
}
use engineering_memory_agent.Memory.Table.{
  find_by_hash, find_similar, is_live, taken, update_id, insert_row, merge_threshold,
  conflict_check, supplement_threshold,
}
use engineering_memory_agent.Memory.Act.{Act, pure, raise, lift, gets, modify, ◌>>=◌, ◌>>◌}

-- What lies outside this code: SHA-256, the vector distance (in millionths of similarity), the
-- extraction of a memory and the judgement and the merging of summaries by a language model, and the
-- embedding model. Each call of a model may raise.
pub record Services (V : Type 0) : Type 0 where
  pub sha256 : String → String
  pub similarity : V → V → ℕ
  pub extract : String → Result Extracted
  pub embed : String → Result V
  pub detect : String → String → Result Bool
  pub merge_chat : String → String → Result String

-- What concurrent requests commit while this one waits: for the extraction and the embedding, for
-- the model calls after the search, and between a refused write and the search for the winner.
pub record Others (V : Type 0) : Type 0 where
  pub during_extraction : Db V → Db V
  pub during_grading : Db V → Db V
  pub before_refetch : Db V → Db V

-- One call. `thread_id` is the context variable, "" where it is not set; `new_id` is the id that the
-- database gives to a row if it inserts one.
pub record Request : Type 0 where
  pub content : String
  pub source_type : String
  pub metadata : Meta
  pub thread_id : String
  pub new_id : String

pub record Deferred (V : Type 0) : Type 0 where
  pub extracted : Extracted
  pub embedding : V
  pub source_type : String
  pub metadata : Meta
  pub content_hash : Option String

-- The `action` of the answer. The deferred payload of a conflict carries the new side.
pub data Written (V : Type 0) : Type 0 where
  duplicate : String → String → Written V
  inserted : String → String → Written V
  merged : String → String → Written V
  conflict : String → String → Deferred V → Written V

-- The ids of further matches, where there are any, go into the metadata.
unfoldable pub write_meta : List String → Meta → Meta
write_meta [] m = m
write_meta (i ∷ ids) m = put "supplements" (texts (i ∷ ids)) m

unfoldable pub with_thread : String → Meta → Meta
with_thread tid m = if str_eq tid "" then m else put "thread_id" (text tid) m

module _ {V : Type 0} where
  -- The winner of a race for the hash, and the error that is raised if it is gone again.
  unfoldable pub refetch : Error → Option String → Act V (Written V)
  refetch e none s = (err e, s)
  refetch e (some h) s = elim (find_by_hash h s.rows) [
    | none ↦ (err e, s)
    | some w ↦ (ok (duplicate w.id w.summary), s)
  ]

  abbrev pub new_row : Extracted → V → String → Meta → Option String → String → String → Row V
  new_row x vec source_type m h tid new_id = record {
    id = new_id;
    source_type = source_type;
    summary = x.summary;
    entities = x.entities;
    relations = x.relations;
    embedding = some vec;
    meta = with_thread tid m;
    content_hash = h;
    deleted = false;
  }

  -- `_insert_memory`
  unfoldable pub insert_memory :
      Others V → Extracted → V → String → Meta → Option String → String → String → Act V (Written V)
  unfolding refetch
  insert_memory others x vec source_type m h tid new_id s =
      elim (insert_row (new_row x vec source_type m h tid new_id) s.rows) [
        | none ↦ refetch runtime_error h (others.before_refetch s)
        | some rows ↦ (
          ok (inserted new_id x.summary),
          record s { rows = rows; scheduled = (new_id, x.entities) ∷ s.scheduled },
        )
      ]

  unfoldable pub supplement_meta : Row V → Meta → Meta
  supplement_meta existing m =
      let related = as_texts (get "supplements" m) in
      put "parent_summary" (text existing.summary) (
        put "supplements"
          (texts (if contains existing.id related then related else existing.id ∷ related)) m)

  -- `_supplement_memory`
  unfoldable pub supplement_memory :
      Others V
      → Row V
      → Extracted
      → V
      → String
      → Meta
      → String
      → String
      → String
      → Act V (Written V)
  unfolding supplement_meta
  supplement_memory others existing x vec source_type m h tid new_id =
      insert_memory others x vec source_type (supplement_meta existing m) (some h) tid new_id

  unfoldable pub conflict_meta : Row V → Meta → Meta
  conflict_meta existing m =
      put "conflicting_summary" (text existing.summary) (put "conflicts_with" (text existing.id) m)

  -- `_mark_conflict`
  unfoldable pub mark_conflict : Row V → Extracted → V → String → Meta → String → Act V (Written V)
  unfolding conflict_meta
  mark_conflict existing x vec source_type m h = pure (
      conflict existing.id existing.summary (record {
        extracted = x;
        embedding = vec;
        source_type = source_type;
        metadata = conflict_meta existing m;
        content_hash = some h;
      }))

  -- The UPDATE of `_merge_memory`, on the row as it is in the table.
  abbrev pub merged_row : Row V → Extracted → String → V → Meta → String → String → Row V → Row V
  merged_row existing x summary vec m h tid r = record r {
    summary = summary;
    entities = merge_entities existing.entities x.entities;
    relations = merge_relations existing.relations x.relations;
    embedding = some vec;
    meta = record_prior_hash (union existing.meta (with_thread tid m)) existing.content_hash;
    content_hash = some h;
  }

  unfoldable pub commit_merge :
      Others V → Row V → Extracted → String → Meta → String → String → V → Act V (Written V)
  commit_merge others existing x summary m h tid vec s =
      if is_live existing.id s.rows && taken h existing.id s.rows
      then refetch integrity (some h) (others.before_refetch s)
      else (
        ok (merged existing.id summary),
        record s {
          rows = update_id existing.id (merged_row existing x summary vec m h tid) s.rows;
          scheduled = (existing.id, merge_entities existing.entities x.entities) ∷ s.scheduled;
        },
      )

  -- The text that a merge stores: the model's, or the existing summary where the model fails.
  unfoldable pub merged_summary : Services V → String → String → String
  merged_summary svc existing new = elim (svc.merge_chat existing new) [
    | ok t ↦ strip (strip t)
    | err _ ↦ strip existing
  ]

  -- `_merge_memory`
  unfoldable pub merge_memory :
      Services V → Others V → Row V → Extracted → Meta → String → String → Act V (Written V)
  unfolding commit_merge refetch ◌>>=◌
  merge_memory svc others existing x m h tid = do
    let summary = merged_summary svc existing.summary x.summary
    vec ← lift (svc.embed summary)
    commit_merge others existing x summary m h tid vec

  -- What follows the model's judgement: a failed judgement is no contradiction.
  unfoldable pub vetted : Result Bool → Act V (Written V) → Act V (Written V) → Act V (Written V)
  vetted (ok true) mark supplement = mark
  vetted (ok false) mark supplement = supplement
  vetted (err structured) mark supplement = supplement
  vetted (err circuit_open) mark supplement = supplement
  vetted (err e) mark supplement = raise e

  -- The ids of the other matches that are close enough.
  unfoldable pub supplement_ids : String → List (ℕ × Row V) → List String
  supplement_ids closest [] = []
  supplement_ids closest ((sim, r) ∷ rest) =
      let ids = supplement_ids closest rest in
      if ltb sim supplement_threshold || str_eq r.id closest then ids else r.id ∷ ids

  -- Step 4: act on the grade of the closest match.
  unfoldable pub act_on_grade :
      Services V
      → Others V
      → Request
      → String
      → Extracted
      → V
      → List (ℕ × Row V)
      → Act V (Written V)
  unfolding supplement_memory mark_conflict merge_memory vetted
  act_on_grade svc others req h x vec [] =
      insert_memory others x vec req.source_type req.metadata (some h) req.thread_id req.new_id
  act_on_grade svc others req h x vec ((grade, existing) ∷ rest) =
      let m = write_meta (supplement_ids existing.id rest) req.metadata in
      let supplement =
        supplement_memory others existing x vec req.source_type m h req.thread_id req.new_id in
      let mark = mark_conflict existing x vec req.source_type m h in
      if leb merge_threshold grade
      then merge_memory svc others existing x m h req.thread_id
      else if leb conflict_check grade
      then vetted (svc.detect existing.summary x.summary) mark supplement
      else if leb supplement_threshold grade
      then supplement
      else insert_memory others x vec req.source_type m (some h) req.thread_id req.new_id

  -- Steps 1 to 4: what is not an exact duplicate.
  unfoldable pub ingest : Services V → Others V → Request → String → Act V (Written V)
  unfolding ◌>>=◌
  ingest svc others req h = do
    x ← lift (svc.extract req.content)
    vec ← lift (svc.embed x.summary)
    modify others.during_extraction
    similar ← gets (λ s. find_similar (λ v. svc.similarity v vec) s.rows)
    modify others.during_grading
    act_on_grade svc others req h x vec similar

  unfoldable pub write_memory : Services V → Others V → Request → Act V (Written V)
  unfolding ingest
  write_memory svc others req s =
      let h = svc.sha256 req.content in
      elim (find_by_hash h s.rows) [
        | some r ↦ (ok (duplicate r.id r.summary), s)
        | none ↦ ingest svc others req h s
      ]
