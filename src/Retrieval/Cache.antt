-- ===== src/Retrieval/Cache.antt =====
-- The cache of query embeddings in backend/service/retrieval/retrieval.py: `_query_embed_cache` and
-- `embed_query`. Each use of the lock is one step; what other coroutines do to the cache while the
-- provider runs is an argument.
use engineering_memory_agent.Common.{
  ℕ, String, Option, none, some, List, [], ◌∷◌, ◌++◌, length, filter, not, str_eq, leb,
  if◌then◌else◌,
}
use engineering_memory_agent.Common.Eq.{string_eq}
use engineering_memory_agent.Common.Dict.{Dict, get}

abbrev pub query_embed_cache_max : ℕ
query_embed_cache_max = 1024

-- The entries of an `OrderedDict`, the oldest first.
abbrev pub Cache {ℓ} : Type ℓ → Type ℓ
Cache V = Dict String V

-- A call of `embed_query`: its query, the provider's answer and the others' doing.
pub record Query {ℓ} (V : Type ℓ) : Type ℓ where
  pub query : String
  pub provider : String → Option V
  pub others : Cache V → Cache V

module _ {ℓ} {V : Type ℓ} where
  unfoldable pub without_key : String → Cache V → Cache V
  without_key k cache = filter (λ (e : String × V). not (str_eq e.0 k)) cache

  -- An assignment followed by `move_to_end`.
  unfoldable pub set_newest : String → V → Cache V → Cache V
  unfolding without_key
  set_newest k v cache = without_key k cache ++ ((k, v) ∷ [])

  -- `popitem(last=False)`
  unfoldable pub pop_oldest : Cache V → Cache V
  pop_oldest [] = []
  pop_oldest (e ∷ cache) = cache

  -- The first step: a hit becomes the newest entry.
  unfoldable pub look_up : String → Cache V → Option V × Cache V
  unfolding set_newest
  look_up query cache = elim (get query cache) [
    | none ↦ (none, cache)
    | some hit ↦ (some hit, set_newest query hit cache)
  ]

  -- The second step.
  unfoldable pub store : String → V → Cache V → Cache V
  unfolding set_newest pop_oldest
  store query vector cache =
      let grown = set_newest query vector cache in
      if leb (length grown) query_embed_cache_max then grown else pop_oldest grown

  -- The end of `embed_query` after a miss. The provider answers none where it raises.
  unfoldable pub after_provider : String → Option V → Cache V → Option V × Cache V
  unfolding store
  after_provider query none cache = (none, cache)
  after_provider query (some vector) cache = (some vector, store query vector cache)

  -- `embed_query` after its first step.
  unfoldable pub after_look :
      (String → Option V) → (Cache V → Cache V) → String → Option V × Cache V → Option V × Cache V
  unfolding after_provider
  after_look provider others query (some vector, looked) = (some vector, looked)
  after_look provider others query (none, looked) =
      after_provider query (provider query) (others looked)

  unfoldable pub embed_query :
      (String → Option V) → (Cache V → Cache V) → String → Cache V → Option V × Cache V
  unfolding look_up after_look
  embed_query provider others query cache = after_look provider others query (look_up query cache)

  unfoldable pub run_queries : List (Query V) → Cache V → List (Option V) × Cache V
  unfolding embed_query
  run_queries [] cache = ([], cache)
  run_queries (r ∷ rs) cache =
      let (vector, next) = embed_query r.provider r.others r.query cache in
      let (vectors, last) = run_queries rs next in (vector ∷ vectors, last)
