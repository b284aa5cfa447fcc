-- ===== src/Conflicts/Tests.antt =====
-- Runs of backend/service/conflicts.py on a small table and queue. The hash of a text is the text
-- itself, every embedding is 0, and the short id of a memory is "s".
use engineering_memory_agent.Common.{
  ℕ, String, true, false, ◌≡◌, ◌≢◌, refl, none, some, List, [], ◌∷◌, ◌++◌, str_eq, str_ne,
}
use engineering_memory_agent.Common.Text.{strip}
use engineering_memory_agent.Memory.Row.{Row, Db, ok, err, value_error}
use engineering_memory_agent.Memory.Table.{find_id, is_live}
use engineering_memory_agent.Memory.Write.{Services, Deferred, conflict}
use engineering_memory_agent.Memory.Resolve.{
  keep_existing, keep_both, conflict_resolved, is_gone, resolve_keep_existing, resolve_as,
  resolve_conflict,
}
use engineering_memory_agent.Memory.Posts.{quiet}
use engineering_memory_agent.Conflicts.Queue.{
  Conflict, ingestion, find_conflict, find_content, collides,
}
use engineering_memory_agent.Conflicts.Patrol.{
  Ids, Finding, with_prefix, resolve_patrol_id, find_embedded, load_patrol_pair,
}
use engineering_memory_agent.Conflicts.Service.{
  Store, reopened, is_resolution, decision, patrol_conflict, persist_pending_conflict,
  mark_resolved, resolve_pending_conflict, reopen_patrol_conflict,
}
use engineering_memory_agent.Conflicts.Distinct.{Distinct}
use engineering_memory_agent.Conflicts.Redelivery.{redelivery}
use engineering_memory_agent.Conflicts.Exit.{Closed, resolved_once}
use engineering_memory_agent.Conflicts.Reopen.{arbitrated_stays}
use engineering_memory_agent.Conflicts.Undo.{keep_both_reopens}
use engineering_memory_agent.Conflicts.SelfPair.{self_pair_deleted}

abbrev services : Services ℕ
services = record {
  sha256 = λ s. s;
  similarity = λ v w. 0;
  extract = λ s. ok (record { summary = s; entities = []; relations = [] });
  embed = λ s. ok 0;
  detect = λ s t. ok true;
  merge_chat = λ s t. ok "both";
}

abbrev row : String → String → Row ℕ
row id h = record {
  id = id;
  source_type = "chat";
  summary = "about";
  entities = [];
  relations = [];
  embedding = some 0;
  meta = [];
  content_hash = some h;
  deleted = false;
}

abbrev deferred : Deferred ℕ
deferred = record {
  extracted = record { summary = "new"; entities = []; relations = [] };
  embedding = 0;
  source_type = "chat";
  metadata = [];
  content_hash = some "new";
}

abbrev finding : Finding
finding = record {
  memory_a_id = "a";
  memory_b_id = " s ";
  conflict_description = none;
  severity = none;
}

abbrev ids : Ids
ids = record { is_uuid = λ s. str_eq s "a"; short = λ s. "s" }

abbrev memories : Db ℕ
memories = record { rows = row "a" "old" ∷ row "b" "new" ∷ []; scheduled = [] }

-- The pair of the memories "a" and "b", in the queue.
abbrev pair : Conflict ℕ
pair = patrol_conflict "p" "log" finding (row "a" "old") (row "b" "new") 0

abbrev queued_pair : Store ℕ
queued_pair = record { db = memories; queue = pair ∷ [] }

-- A written conflict with "a" that has the content of "b", in the queue.
abbrev write_conflict : Conflict ℕ
write_conflict = record pair {
  id = "w";
  conflict_type = ingestion;
  peer_id = none;
  deferred = deferred;
}

one-Distinct : Distinct queued_pair.queue
unfolding collides find_conflict
one-Distinct = (refl, refl, tt)

-- Others queue a conflict with another memory while the second delivery waits.
abbrev stray : List (Conflict ℕ)
stray = record write_conflict { id = "z"; existing_id = "c" } ∷ []

stray_leaves :
    (q : List (Conflict ℕ))
    → find_content "a" (some "new") (q ++ stray) ≡ find_content "a" (some "new") q
unfolding find_content
stray_leaves [] = refl
stray_leaves (c ∷ q) = rw (stray_leaves q) refl

redelivery_example :
    let (r, q') =
      persist_pending_conflict (λ q. q) "w" "webhook" (conflict "a" "about" deferred) (pair ∷ []) in
    (k : String) × (r ≡ ok k)
    × (persist_pending_conflict (λ q. q ++ stray) "x" "jira" (conflict "a" "about" deferred) q'
        ≡ (ok k, q' ++ stray))
redelivery_example =
    redelivery (λ q. q) (λ q. q ++ stray) "w" "x" "webhook" "jira" "a" "about" "about" "new"
      deferred deferred (pair ∷ []) refl refl refl (λ q. refl) stray_leaves

resolved_once_example :
    let (out, s') =
      resolve_pending_conflict services quiet (λ q. q) "" "n" "p" keep_existing queued_pair in
    Closed "p" queued_pair out s'
resolved_once_example = resolved_once services quiet "" "n" "p" keep_existing queued_pair

apart : ◌≢◌ {A = String} "a" "b"
apart = str_ne "a" "b" refl

kept_run : resolve_pending_conflict services quiet (λ q. q) "" "n" "p" keep_existing queued_pair ≡ (
  ok (conflict_resolved "a" keep_existing),
  (resolve_pending_conflict services quiet (λ q. q) "" "n" "p" keep_existing queued_pair).1,
)
unfolding resolve_pending_conflict is_resolution find_conflict mark_resolved resolve_conflict
    is_gone is_live find_id resolve_as resolve_keep_existing
kept_run = refl

arbitrated_stays_example :
    let s' =
      (resolve_pending_conflict services quiet (λ q. q) "" "n" "p" keep_existing queued_pair).1 in
    reopen_patrol_conflict "p" s' ≡ (err value_error, s')
unfolding find_conflict
arbitrated_stays_example =
    arbitrated_stays services "" "n" "p" "b" "a" keep_existing keep_existing queued_pair
      (resolve_pending_conflict services quiet (λ q. q) "" "n" "p" keep_existing queued_pair).1 pair
      refl refl apart kept_run refl

keep_both_reopens_example :
    reopen_patrol_conflict "p"
      (resolve_pending_conflict services quiet (λ q. q) "" "n" "p" keep_both queued_pair).1
    ≡ (ok reopened, queued_pair)
unfolding find_conflict is_live find_id
keep_both_reopens_example =
    keep_both_reopens services "" "n" "p" "b" queued_pair pair one-Distinct refl refl refl refl refl
      refl refl

abbrev alone_memory : Db ℕ
alone_memory = record { rows = row "a" "old" ∷ []; scheduled = [] }

self_pair_deleted_example :
    let (out, s') =
      resolve_conflict services quiet
        (decision
          (patrol_conflict "p" "log" finding (row "a" "old") (row "a" "old") 0)
          keep_existing
          ""
          "n")
        alone_memory in
    (load_patrol_pair ids alone_memory.rows finding ≡ ok (row "a" "old", row "a" "old", 0))
    × (out ≡ ok (conflict_resolved "a" keep_existing))
    × (is_live "a" s'.rows ≡ false)
unfolding strip resolve_patrol_id with_prefix find_embedded find_id is_live
self_pair_deleted_example =
    self_pair_deleted ids services "p" "log" "" "n" alone_memory finding (row "a" "old") 0 refl refl
      refl refl refl refl refl
