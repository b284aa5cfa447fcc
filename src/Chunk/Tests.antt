-- ===== src/Chunk/Tests.antt =====
-- Runs of backend/service/ingestion/chunk.py on short texts, whose characters are numbers.
use engineering_memory_agent.Common.{
  ℕ, ◌≡◌, refl, ap, ◌∙◌, Bool, true, false, inl, inr, none, some, List, [], ◌∷◌, arith, All, ◌==◌,
  if◌then◌else◌, Bool-cases,
}
use engineering_memory_agent.Chunk.Hard.{join, Fits}
use engineering_memory_agent.Chunk.Prose.{Regex, chunk_text}
use engineering_memory_agent.Chunk.Bounds.{chunk_text-Fits}
use engineering_memory_agent.Chunk.Lossless.{chunk_text_lossless}
use engineering_memory_agent.Chunk.Code.{chunk_code}
use engineering_memory_agent.Chunk.Lines.{chunk_code_lossless}

abbrev put_first : ℕ → List (List ℕ) → List (List ℕ)
put_first c [] = (c ∷ []) ∷ []
put_first c (part ∷ parts) = (c ∷ part) ∷ parts

-- A separator is one character, and stands as a part of its own.
abbrev split : ℕ → List ℕ → List (List ℕ)
split sep [] = []
split sep (c ∷ text) =
    let parts = split sep text in if c == sep then (c ∷ []) ∷ parts else put_first c parts

abbrev is_nil : List ℕ → Bool
is_nil [] = true
is_nil (c ∷ text) = false

abbrev regex : Regex ℕ ℕ
regex = record { split = split; is_blank = is_nil; finest = 0 }

join-put_first : (c : ℕ) (parts : List (List ℕ)) → join (put_first c parts) ≡ c ∷ join parts
join-put_first c [] = refl
join-put_first c (part ∷ parts) = refl

join-split : (sep : ℕ) (text : List ℕ) → join (split sep text) ≡ text
join-split sep [] = refl
join-split sep (c ∷ text) = elim (Bool-cases (c == sep)) [
  | inl e ↦ rw e (ap (λ l. c ∷ l) (join-split sep text))
  | inr e ↦ rw e (join-put_first c (split sep text) ∙ ap (λ l. c ∷ l) (join-split sep text))
]

abbrev words : List ℕ
words = 5 ∷ 0 ∷ 6 ∷ 7 ∷ 8 ∷ 9 ∷ 0 ∷ 5 ∷ []

chunk_text-Fits_example : All (Fits 3) (chunk_text regex (1 ∷ 0 ∷ []) 3 2 words)
chunk_text-Fits_example = chunk_text-Fits regex (1 ∷ 0 ∷ []) 3 2 words (omega arith)

chunk_text_lossless_example : join (chunk_text regex (1 ∷ 0 ∷ []) 3 0 words) ≡ words
chunk_text_lossless_example =
    chunk_text_lossless regex join-split (1 ∷ 0 ∷ []) 3 words (omega arith) refl

abbrev lines : List ℕ
lines = 10 ∷ 11 ∷ 12 ∷ 13 ∷ 14 ∷ []

chunk_code_lossless_example :
    (join (chunk_code false 2 lines (some ((0, 1) ∷ (2, 5) ∷ []))) ≡ lines)
    × (join (chunk_code false 2 lines none) ≡ lines)
chunk_code_lossless_example =
    chunk_code_lossless 2 lines ((0, 1) ∷ (2, 5) ∷ []) (omega arith)
      (omega arith, omega arith, (omega arith, omega arith, tt))
