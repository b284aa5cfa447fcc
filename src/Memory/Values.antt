-- ===== src/Memory/Values.antt =====
-- The merging of JSON values in backend/service/memory.py: `_merge_entities`, `_merge_relations`
-- and `_record_prior_hash`.
use engineering_memory_agent.Common.{
  String, Bool, false, ◌&&◌, ◌||◌, Option, none, some, List, [], ◌∷◌, ◌++◌, str_eq, if◌then◌else◌,
}
use engineering_memory_agent.Common.Eq.{string_eq}
use engineering_memory_agent.Common.Dict.{Dict, get, put}
use engineering_memory_agent.Memory.Row.{Entity, Relation, MetaValue, Meta, text, texts}

-- A loop of `_merge_entities`: `seen[name] = e` for every entity with a name.
unfoldable pub note_entities : Dict String Entity → List Entity → Dict String Entity
note_entities seen [] = seen
note_entities seen (e ∷ es) =
    note_entities (if str_eq e.name "" then seen else put e.name e seen) es

unfoldable pub values {ℓ κ} : {K : Type ℓ} {V : Type κ} → Dict K V → List V
values [] = []
values ((k, v) ∷ d) = v ∷ values d

unfoldable pub merge_entities : List Entity → List Entity → List Entity
merge_entities existing new = values (note_entities (note_entities [] existing) new)

unfoldable pub same_key : Relation → Relation → Bool
same_key r q = str_eq r.source q.source && str_eq r.target q.target && str_eq r.type q.type

unfoldable pub seen_key : Relation → List Relation → Bool
seen_key r [] = false
seen_key r (q ∷ qs) = same_key q r || seen_key r qs

-- The loop of `_merge_relations`; `seen` holds exactly the keys of `merged`.
unfoldable pub note_relations : List Relation → List Relation → List Relation
note_relations merged [] = merged
note_relations merged (r ∷ rs) =
    note_relations (if seen_key r merged then merged else merged ++ r ∷ []) rs

unfoldable pub merge_relations : List Relation → List Relation → List Relation
merge_relations existing new = note_relations [] (existing ++ new)

unfoldable pub contains : String → List String → Bool
contains s [] = false
contains s (t ∷ ts) = str_eq t s || contains s ts

-- `prior_hashes` or `supplements` as a list, whatever form it has.
unfoldable pub as_texts : Option MetaValue → List String
as_texts none = []
as_texts (some (text s)) = s ∷ []
as_texts (some (texts l)) = l

unfoldable pub record_prior_hash : Meta → Option String → Meta
record_prior_hash meta none = meta
record_prior_hash meta (some h) =
    let prior = as_texts (get "prior_hashes" meta) in
    if str_eq h ""
    then meta
    else put "prior_hashes" (texts (if contains h prior then prior else prior ++ h ∷ [])) meta
