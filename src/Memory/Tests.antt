-- ===== src/Memory/Tests.antt =====
-- Runs of backend/service/memory.py on a small table. The hash of a text is the text itself, every
-- embedding is 0, and two embeddings are similar to `near` millionths.
use engineering_memory_agent.Common.{
  ℕ, String, Bool, true, false, ◌≡◌, ◌≢◌, refl, Option, none, some, List, [], ◌∷◌, str_ne,
}
use engineering_memory_agent.Common.Eq.{string_eq}
use engineering_memory_agent.Common.Dict.{get}
use engineering_memory_agent.Common.Text.{strip, lstrip, rstrip, is_space}
use engineering_memory_agent.Memory.Row.{Row, Db, Entity, Relation, ok}
use engineering_memory_agent.Memory.Values.{contains, as_texts}
use engineering_memory_agent.Memory.Table.{
  stands_for, find_by_hash, find_id, is_live, taken, live_hash, insert_row, insert_sorted,
  candidate, candidates, find_similar,
}
use engineering_memory_agent.Memory.Act.{◌>>=◌}
use engineering_memory_agent.Memory.Write.{
  Services, Request, Deferred, duplicate, inserted, merged, insert_memory, commit_merge,
  merged_summary, merge_memory, act_on_grade, ingest, write_memory,
}
use engineering_memory_agent.Memory.Resolve.{
  Resolution, Decision, overwrite, keep_existing, conflict_resolved, resolve_conflict,
}
use engineering_memory_agent.Memory.Unique.{IsUnique, alone}
use engineering_memory_agent.Memory.Live.{known}
use engineering_memory_agent.Memory.Posts.{quiet}
use engineering_memory_agent.Memory.Gate.{rewrite_is_duplicate}
use engineering_memory_agent.Memory.Superseded.{superseded_is_duplicate}
use engineering_memory_agent.Memory.Patrol.{PatrolOutcome, resolve_patrol}
use engineering_memory_agent.Memory.Stale.{overwrite_of_deleted}

abbrev services : ℕ → Services ℕ
services near = record {
  sha256 = λ s. s;
  similarity = λ v w. near;
  extract = λ s. ok (record { summary = s; entities = []; relations = [] });
  embed = λ s. ok 0;
  detect = λ s t. ok true;
  merge_chat = λ s t. ok "both";
}

abbrev row : String → String → Bool → Row ℕ
row id h gone = record {
  id = id;
  source_type = "chat";
  summary = "about";
  entities = [];
  relations = [];
  embedding = some 0;
  meta = [];
  content_hash = some h;
  deleted = gone;
}

abbrev empty : Db ℕ
empty = record { rows = []; scheduled = [] }

abbrev one : Db ℕ
one = record { rows = row "a" "old" false ∷ []; scheduled = [] }

abbrev two : Db ℕ
two = record { rows = row "a" "old" false ∷ row "b" "new" false ∷ []; scheduled = [] }

abbrev dead : Db ℕ
dead = record { rows = row "a" "old" true ∷ []; scheduled = [] }

abbrev request : Request
request = record {
  content = "new";
  source_type = "chat";
  metadata = [];
  thread_id = "t";
  new_id = "n";
}

abbrev again : Request
again = record request { source_type = "jira"; thread_id = "" }

abbrev old_request : Request
old_request = record request { content = "old" }

abbrev deferred : Deferred ℕ
deferred = record {
  extracted = record { summary = "new"; entities = []; relations = [] };
  embedding = 0;
  source_type = "chat";
  metadata = [];
  content_hash = some "new";
}

abbrev decide : Resolution → Option String → Decision ℕ
decide r peer = record {
  resolution = r;
  existing_id = "a";
  peer_id = peer;
  deferred = deferred;
  thread_id = "";
  new_id = "n";
}

one-IsUnique : IsUnique one.rows
unfolding alone live_hash find_id
one-IsUnique = (refl, refl, tt)

apart : ◌≢◌ {A = String} "a" "b"
apart = str_ne "a" "b" refl

resolve_patrol_example :
    let (r, s') = resolve_conflict (services 0) quiet (decide keep_existing (some "b")) two in
    PatrolOutcome "a" "b" two r s'
resolve_patrol_example =
    resolve_patrol (services 0) (decide keep_existing (some "b")) "b" two apart refl

overwrite_of_deleted_example :
    let (r, s') = resolve_conflict (services 0) quiet (decide overwrite none) dead in
    (r ≡ ok (conflict_resolved "a" overwrite))
    × ((h : String) → known h s'.rows ≡ known h dead.rows)
unfolding alone find_id is_live
overwrite_of_deleted_example =
    overwrite_of_deleted (services 0) (decide overwrite none) dead (refl, refl, tt) refl refl refl

abbrev pair : Entity → Entity → List Entity
pair a b = a ∷ b ∷ []

abbrev entity : String → String → Entity
entity n t = record { name = n; type = t; description = "" }

abbrev uses : Relation
uses = record { source = "api"; target = "db"; type = "uses" }

inserted_run :
    write_memory (services 0) quiet request empty
    ≡ (ok (inserted "n" "new"), (write_memory (services 0) quiet request empty).1)
unfolding write_memory find_by_hash ingest find_similar candidates act_on_grade insert_memory
    insert_row live_hash ◌>>=◌
inserted_run = refl

rewrite_is_duplicate_example :
    let s' = (write_memory (services 0) quiet request empty).1 in
    (r : Row ℕ) × (write_memory (services 990000) quiet again s'
      ≡ (ok (duplicate r.id r.summary), s'))
rewrite_is_duplicate_example =
    rewrite_is_duplicate (services 0) (services 990000) quiet request again empty
      (write_memory (services 0) quiet request empty).1 (inserted "n" "new") refl refl tt
      inserted_run refl

merged_run :
    write_memory (services 900000) quiet request one
    ≡ (ok (merged "a" "both"), (write_memory (services 900000) quiet request one).1)
unfolding write_memory find_by_hash stands_for contains as_texts get ingest find_similar candidates
    candidate insert_sorted act_on_grade merge_memory merged_summary commit_merge is_live find_id
    taken strip lstrip rstrip is_space ◌>>=◌
merged_run = refl

superseded_is_duplicate_example :
    let s' = (write_memory (services 900000) quiet request one).1 in
    (q : Row ℕ) × (write_memory (services 0) quiet old_request s'
      ≡ (ok (duplicate q.id q.summary), s'))
unfolding find_id
superseded_is_duplicate_example =
    superseded_is_duplicate (services 900000) (services 0) quiet request old_request one
      (write_memory (services 900000) quiet request one).1 "a" "both" "old" (row "a" "old" false)
      one-IsUnique merged_run refl refl refl refl
