-- ===== src/Chunk/Lines.antt =====
-- The lines in the chunks that `chunk_code` of backend/service/ingestion/chunk.py makes.
use engineering_memory_agent.Common.{
  ℕ, zero, suc, ◌-◌, ◌≤◌, ◌<◌, ◌≡◌, refl, sym, ap, ◌∙◌, Bool, true, false, inl, inr, none, some,
  List, [], ◌∷◌, ◌++◌, take, append-nil, append_assoc, arith, length, ltb, if◌then◌else◌,
  Bool-cases,
}
use engineering_memory_agent.Chunk.Hard.{drop, take-drop, join, join-hard_split, join-append}
use engineering_memory_agent.Chunk.Code.{
  slice, chunk_by_lines, is_full, flushed, kept, unless_empty, with_gap, code_runs, chunk_code,
}

-- Each node starts at or behind the end of the one before it and ends at or behind its start.
abbrev pub Separate : ℕ → List (ℕ × ℕ) → Type 0
Separate prev [] = Unit
Separate prev ((start, end) ∷ nodes) = (prev ≤ start) × (start ≤ end) × Separate end nodes

module _ {L : Type 0} where
  take-nil : (n : ℕ) → ◌≡◌ {A = List L} (take n []) []
  take-nil zero = refl
  take-nil (suc n) = refl

  slice-drop : (a b : ℕ) (lines : List L) → a ≤ b → slice a b lines ++ drop b lines ≡ drop a lines
  unfolding slice
  slice-drop zero b lines h = let same : b - 0 ≡ b = omega arith in rw same (take-drop b lines)
  slice-drop (suc a) zero lines h = absurd (omega arith)
  slice-drop (suc a) (suc b) [] h = rw (take-nil (suc b - suc a)) refl
  slice-drop (suc a) (suc b) (x ∷ lines) h =
      let same : suc b - suc a ≡ b - a = omega arith in rw same (slice-drop a b lines (omega arith))

  join-flushed :
      (m : ℕ) (current more tail : List L)
      → join (flushed m current more) ++ (kept m current more ++ tail) ≡ current ++ tail
  unfolding flushed kept
  join-flushed m current more tail = elim (Bool-cases (is_full m current more)) [
    | inl e ↦ rw e (ap (λ l. l ++ tail) (append-nil current))
    | inr e ↦ rw e refl
  ]

  join-unless_empty : (current : List L) → join (unless_empty current) ≡ current
  join-unless_empty [] = refl
  join-unless_empty (x ∷ current) = append-nil (x ∷ current)

  join-with_gap :
      (m : ℕ) (gap current tail : List L)
      → let (out, current') = with_gap m gap current in
        join out ++ (current' ++ tail) ≡ current ++ (gap ++ tail)
  unfolding with_gap
  join-with_gap m [] current tail = refl
  join-with_gap m (g ∷ gap) current tail =
      ap (λ l. join (flushed m current (g ∷ gap)) ++ l)
        (append_assoc (kept m current (g ∷ gap)) (g ∷ gap) tail)
      ∙ join-flushed m current (g ∷ gap) ((g ∷ gap) ++ tail)

  -- What one node adds behind the gap.
  join-node :
      (m : ℕ) (b : Bool) (rest node tail : List L) (pieces large small : List (List L))
      → join pieces ≡ node
      → join large ≡ tail
      → join small ≡ (rest ++ node) ++ tail
      → join (if b then unless_empty rest ++ (pieces ++ large) else small) ≡ rest ++ (node ++ tail)
  join-node m true rest node tail pieces large small p l s =
      join-append (unless_empty rest) (pieces ++ large)
      ∙ ap (λ x. x ++ join (pieces ++ large)) (join-unless_empty rest)
      ∙ ap (λ x. rest ++ x) (join-append pieces large ∙ rw (p, l) refl)
  join-node m false rest node tail pieces large small p l s = s ∙ append_assoc rest node tail

  join-code_runs :
      (m : ℕ) (lines : List L) (nodes : List (ℕ × ℕ)) (prev : ℕ) (current : List L)
      → 0 < m
      → Separate prev nodes
      → join (code_runs m lines nodes prev current) ≡ current ++ drop prev lines
  unfolding code_runs chunk_by_lines
  join-code_runs m lines [] prev current pos h =
      let (out, current') = with_gap m (drop prev lines) current in
      join-append out (unless_empty current')
      ∙ ap (λ x. join out ++ x) (join-unless_empty current' ∙ sym (append-nil current'))
      ∙ join-with_gap m (drop prev lines) current []
      ∙ ap (λ x. current ++ x) (append-nil (drop prev lines))
  join-code_runs m lines ((start, end) ∷ nodes) prev current pos (a, b, h) =
      let gap = slice prev start lines in
      let (out, current') = with_gap m gap current in
      let node = slice start end lines in
      let rest = kept m current' node in
      let tail = drop end lines in
      let large = join-code_runs m lines nodes end [] pos h in
      let small = join-code_runs m lines nodes end (rest ++ node) pos h in
      let body =
        if ltb m (length node)
        then unless_empty rest ++ (chunk_by_lines m node ++ code_runs m lines nodes end [])
        else code_runs m lines nodes end (rest ++ node) in
      join-append out (flushed m current' node ++ body)
      ∙ ap (λ x. join out ++ x)
          (join-append (flushed m current' node) body
            ∙ ap (λ x. join (flushed m current' node) ++ x)
                (join-node m (ltb m (length node)) rest node tail (chunk_by_lines m node)
                  (code_runs m lines nodes end []) (code_runs m lines nodes end (rest ++ node))
                  (join-hard_split m node pos) large small)
            ∙ join-flushed m current' node (node ++ tail))
      ∙ join-with_gap m gap current (node ++ tail)
      ∙ ap (λ x. current ++ x)
          (ap (λ x. gap ++ x) (slice-drop start end lines b) ∙ slice-drop prev start lines a)

  -- The chunks of a source that is not blank and whose top-level statements, in order, share no line
  -- are consecutive runs of its lines: joined, they are all the lines, each once, for any positive
  -- maximum. The same holds of a source that does not parse.
  pub chunk_code_lossless :
      (m : ℕ) (lines : List L) (nodes : List (ℕ × ℕ))
      → 0 < m
      → Separate 0 nodes
      → (join (chunk_code false m lines (some nodes)) ≡ lines)
        × (join (chunk_code false m lines none) ≡ lines)
  unfolding chunk_code chunk_by_lines
  chunk_code_lossless m lines nodes pos h =
      (join-code_runs m lines nodes 0 [] pos h, join-hard_split m lines pos)

  doubled :
      (m : ℕ) (line : L)
      → 1 < m
      → join (chunk_code false m (line ∷ []) (some ((0, 1) ∷ (0, 1) ∷ []))) ≡ line ∷ line ∷ []
  unfolding chunk_code code_runs with_gap slice flushed kept is_full
  doubled m line h =
      let one : ltb m 1 ≡ false = ground arith in
      let two : ltb m 2 ≡ false = ground arith in rw (one, two) refl

  -- A source of one line with two statements on it, as `ast` reports them, is chunked into that line
  -- twice, for every maximum above 1, while the same source with one statement is chunked into it
  -- once.
  pub shared_line_doubled :
      (m : ℕ) (line : L)
      → 1 < m
      → (join (chunk_code false m (line ∷ []) (some ((0, 1) ∷ (0, 1) ∷ []))) ≡ line ∷ line ∷ [])
        × (join (chunk_code false m (line ∷ []) (some ((0, 1) ∷ []))) ≡ line ∷ [])
  shared_line_doubled m line h = (
    doubled m line h,
    (chunk_code_lossless m (line ∷ []) ((0, 1) ∷ []) (omega arith)
        (omega arith, omega arith, tt)).0,
  )
