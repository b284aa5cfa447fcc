-- ===== src/Retrieval/Tests.antt =====
-- Runs of backend/service/retrieval/retrieval.py on a cache of two queries, where a query embeds as itself,
-- and on the rows of two searches.
use engineering_memory_agent.Common.{
  ℕ, String, ◌≡◌, refl, take, inl, inr, arith, none, some, List, [], ◌∷◌, All,
}
use engineering_memory_agent.Retrieval.Cache.{Cache, Query, run_queries}
use engineering_memory_agent.Common.Dict.{get, put}
use engineering_memory_agent.Retrieval.Fusion.{Chunk, retrieve_hybrid}
use engineering_memory_agent.Retrieval.Ranking.{agreed_first}
use engineering_memory_agent.Retrieval.Embed.{IsValid, IsReliable, AllAnswer, run_queries-IsValid}

abbrev self : String → String
self s = s

abbrev ask : String → Query String
ask s = record { query = s; provider = λ t. some t; others = λ c. c }

abbrev unlucky : String → Query String
unlucky s = record { query = s; provider = λ t. none; others = λ c. c }

abbrev warm : Cache String
warm = ("a", "a") ∷ ("b", "b") ∷ []

warm-IsValid : IsValid self warm
warm-IsValid = record { sound = (refl, (refl, tt)); capped = omega arith }

abbrev asked : List (Query String)
asked = ask "c" ∷ unlucky "d" ∷ ask "a" ∷ []

asked-IsReliable : All (IsReliable self) asked
asked-IsReliable = (
  record { faithful = inl refl; others_keep = λ c h. h },
  (
    record { faithful = inr refl; others_keep = λ c h. h },
    (record { faithful = inl refl; others_keep = λ c h. h }, tt),
  ),
)

run_queries-IsValid_example :
    let (answers, next) = run_queries asked warm in AllAnswer self asked answers × IsValid self next
run_queries-IsValid_example = run_queries-IsValid self asked warm asked-IsReliable warm-IsValid

abbrev chunk : String → ℕ → Chunk ℕ
chunk k n = record { id = k; body = n }

-- Equal scores keep their order, and the second of both beats the third of one.
fused_order :
    retrieve_hybrid
      (chunk "x" 1 ∷ chunk "y" 2 ∷ chunk "b" 3 ∷ [])
      (chunk "a" 4 ∷ chunk "b" 5 ∷ [])
      3
    ≡ chunk "b" 3 ∷ chunk "x" 1 ∷ chunk "a" 4 ∷ []
unfolding retrieve_hybrid get put
fused_order = refl

agreed_first_example :
    take 1 (
      retrieve_hybrid
        (chunk "a" 1 ∷ chunk "b" 2 ∷ [])
        (chunk "a" 3 ∷ chunk "d" 4 ∷ chunk "b" 5 ∷ [])
        2)
    ≡ chunk "a" 1 ∷ []
agreed_first_example =
    agreed_first (chunk "a" 1) (chunk "a" 3) (chunk "b" 2 ∷ []) (chunk "d" 4 ∷ chunk "b" 5 ∷ []) 2
      (omega arith) refl (refl, tt) (refl, (refl, tt))
