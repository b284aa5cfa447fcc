-- ===== src/Memory/Row.antt =====
-- The rows of the `memories` table (migrations/versions/0001_baseline.py) and the JSON values that
-- backend/service/memory.py reads and writes in them. An id is the text of a UUID. `deleted` says
-- that `deleted_at` is set. The columns that this code never reads (the timestamps, the recall
-- counters) are left out. `V` is the type of embeddings.
use engineering_memory_agent.Common.{String, Bool, Option, List}
use engineering_memory_agent.Common.Dict.{Dict}

pub record Entity : Type 0 where
  pub name : String  -- "" where the key is missing
  pub type : String
  pub description : String

pub record Relation : Type 0 where
  pub source : String  -- the key `from`
  pub target : String  -- the key `to`
  pub type : String

-- A metadata value: a text, or a list of texts.
pub data MetaValue : Type 0 where
  text : String → MetaValue
  texts : List String → MetaValue

abbrev pub Meta : Type 0
Meta = Dict String MetaValue

pub record Extracted : Type 0 where
  pub summary : String
  pub entities : List Entity
  pub relations : List Relation

pub record Row (V : Type 0) : Type 0 where
  pub id : String
  pub source_type : String
  pub summary : String
  pub entities : List Entity
  pub relations : List Relation
  pub embedding : Option V
  pub meta : Meta
  pub content_hash : Option String
  pub deleted : Bool

-- The table, and the entity normalisations that were scheduled, the latest first.
pub record Db (V : Type 0) : Type 0 where
  pub rows : List (Row V)
  pub scheduled : List (String × List Entity)

-- Exceptions: structured output that exhausted its retries, an open circuit breaker, a unique index
-- violation, the `ValueError` and `RuntimeError` of this module, and any other.
pub data Error : Type 0 where
  structured circuit_open integrity value_error runtime_error failed : Error

pub data Result {ℓ} (A : Type ℓ) : Type ℓ where
  ok : A → Result A
  err : Error → Result A
