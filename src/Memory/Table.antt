-- ===== src/Memory/Table.antt =====
-- The SQL statements of backend/service/memory.py over the `memories` table. A query with LIMIT 1
-- and no order may answer any row that fits: the model answers the first in the list, and theorems
-- speak of tables in any order. `uq_memories_content_hash_live` is the unique index on the content
-- hashes of live rows.
use engineering_memory_agent.Common.{
  ℕ, String, Bool, true, false, not, ◌&&◌, ◌||◌, Option, none, some, List, [], ◌∷◌, take, ltb,
  str_eq, if◌then◌else◌,
}
use engineering_memory_agent.Common.Eq.{string_eq}
use engineering_memory_agent.Common.Dict.{get}
use engineering_memory_agent.Memory.Row.{Row}
use engineering_memory_agent.Memory.Values.{contains, as_texts}

abbrev pub hash_is : String → Option String → Bool
hash_is h none = false
hash_is h (some g) = str_eq g h

-- Similarities (1 minus the cosine distance) in millionths.
abbrev pub merge_threshold : ℕ
merge_threshold = 850000

abbrev pub conflict_check : ℕ
conflict_check = 720000

abbrev pub supplement_threshold : ℕ
supplement_threshold = 600000

module _ {V : Type 0} where
  -- The row stands for this content: its live hash, or one that it superseded.
  unfoldable pub stands_for : String → Row V → Bool
  stands_for h r =
      not r.deleted
      && (hash_is h r.content_hash || contains h (as_texts (get "prior_hashes" r.meta)))

  -- `_find_by_content_hash`
  unfoldable pub find_by_hash : String → List (Row V) → Option (Row V)
  find_by_hash h [] = none
  find_by_hash h (r ∷ rows) = if stands_for h r then some r else find_by_hash h rows

  -- SELECT … WHERE id = :id
  unfoldable pub find_id : String → List (Row V) → Option (Row V)
  find_id k [] = none
  find_id k (r ∷ rows) = if str_eq r.id k then some r else find_id k rows

  unfoldable pub is_live : String → List (Row V) → Bool
  is_live k rows = elim (find_id k rows) [ none ↦ false | some r ↦ not r.deleted ]

  -- Another live row than `k` has the hash: the unique index refuses to give it to `k`.
  unfoldable pub taken : String → String → List (Row V) → Bool
  taken h k [] = false
  taken h k (r ∷ rows) =
      (not (str_eq r.id k) && not r.deleted && hash_is h r.content_hash) || taken h k rows

  -- A live row has the hash.
  unfoldable pub live_hash : String → List (Row V) → Bool
  live_hash h [] = false
  live_hash h (r ∷ rows) = (not r.deleted && hash_is h r.content_hash) || live_hash h rows

  -- UPDATE … WHERE id = :id, for a change of a row that leaves its id.
  unfoldable pub update_id : String → (Row V → Row V) → List (Row V) → List (Row V)
  update_id k g [] = []
  update_id k g (r ∷ rows) = (if str_eq r.id k then g r else r) ∷ update_id k g rows

  abbrev pub delete_row : Row V → Row V
  delete_row r = record r { deleted = true }

  -- UPDATE memories SET deleted_at = NOW() WHERE id = :id AND deleted_at IS NULL
  unfoldable pub soft_delete : String → List (Row V) → List (Row V)
  soft_delete k = update_id k delete_row

  -- The INSERT of `_insert_memory`, with ON CONFLICT DO NOTHING: `none` where the hash is live.
  unfoldable pub insert_row : Row V → List (Row V) → Option (List (Row V))
  insert_row r rows = elim r.content_hash [
    | none ↦ some (r ∷ rows)
    | some h ↦ if live_hash h rows then none else some (r ∷ rows)
  ]

  -- Insertion into a list that falls in similarity, behind the equals.
  unfoldable pub insert_sorted : ℕ × Row V → List (ℕ × Row V) → List (ℕ × Row V)
  insert_sorted x [] = x ∷ []
  insert_sorted (s, r) ((t, q) ∷ l) =
      if ltb t s then (s, r) ∷ (t, q) ∷ l else (t, q) ∷ insert_sorted (s, r) l

  unfoldable pub candidate : (V → ℕ) → Row V → List (ℕ × Row V) → List (ℕ × Row V)
  candidate near r l = elim r.embedding [
    | none ↦ l
    | some v ↦
        if not r.deleted && ltb supplement_threshold (near v)
        then insert_sorted (near v, r) l
        else l
  ]

  unfoldable pub candidates : (V → ℕ) → List (Row V) → List (ℕ × Row V)
  candidates near [] = []
  candidates near (r ∷ rows) = candidate near r (candidates near rows)

  -- `_find_similar`, for the similarity of each embedding to the new one.
  unfoldable pub find_similar : (V → ℕ) → List (Row V) → List (ℕ × Row V)
  unfolding candidates candidate insert_sorted
  find_similar near rows = take 3 (candidates near rows)
