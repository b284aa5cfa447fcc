-- ===== src/Chunk/Code.antt =====
-- `chunk_code` and `_chunk_by_lines` of backend/service/ingestion/chunk.py. A line is a list of
-- characters, with its line break. `nodes` are what `_collect_nodes` gives: the start and the end of
-- each top-level statement, sorted by start, as Python's `ast` module reports them. The lines of a
-- joined run of lines are that run.
use engineering_memory_agent.Common.{
  ℕ, ◌+◌, ◌-◌, Bool, true, false, ◌&&◌, Option, none, some, List, [], ◌∷◌, ◌++◌, take, length, ltb,
  if◌then◌else◌,
}
use engineering_memory_agent.Chunk.Hard.{drop, hard_split}

module _ {L : Type 0} where
  -- `lines[start:end]`
  unfoldable pub slice : ℕ → ℕ → List L → List L
  slice start end lines = take (end - start) (drop start lines)

  -- The runs of lines that `_chunk_by_lines` joins.
  unfoldable pub chunk_by_lines : ℕ → List L → List (List L)
  unfolding hard_split
  chunk_by_lines max_lines lines = hard_split max_lines lines

  abbrev pub is_empty : List L → Bool
  is_empty [] = true
  is_empty (x ∷ xs) = false

  -- `if _line_count(current) + _line_count(more) > max_lines and current`
  unfoldable pub is_full : ℕ → List L → List L → Bool
  is_full max_lines current more =
      ltb max_lines (length current + length more) && ltb 0 (length current)

  -- What is appended to `chunks` before `more`, and what is left in `current`.
  unfoldable pub flushed : ℕ → List L → List L → List (List L)
  unfolding is_full
  flushed max_lines current more = if is_full max_lines current more then current ∷ [] else []

  unfoldable pub kept : ℕ → List L → List L → List L
  unfolding is_full
  kept max_lines current more = if is_full max_lines current more then [] else current

  abbrev pub unless_empty : List L → List (List L)
  unless_empty [] = []
  unless_empty (x ∷ xs) = (x ∷ xs) ∷ []

  -- The gap before a node: with no gap nothing happens.
  unfoldable pub with_gap : ℕ → List L → List L → List (List L) × List L
  unfolding flushed kept
  with_gap max_lines gap current =
      if is_empty gap
      then ([], current)
      else (flushed max_lines current gap, kept max_lines current gap ++ gap)

  -- The loop over the nodes, from the end of the one before, and what follows it. Each chunk is the
  -- run of lines that is joined.
  unfoldable pub code_runs : ℕ → List L → List (ℕ × ℕ) → ℕ → List L → List (List L)
  unfolding slice with_gap flushed kept chunk_by_lines
  code_runs max_lines lines [] prev_end current =
      let remainder = drop prev_end lines in
      let (out, current') = with_gap max_lines remainder current in out ++ unless_empty current'
  code_runs max_lines lines ((start, end) ∷ nodes) prev_end current =
      let (out, current') = with_gap max_lines (slice prev_end start lines) current in
      let node_lines = slice start end lines in
      let rest = kept max_lines current' node_lines in
      let large = code_runs max_lines lines nodes end [] in
      let small = code_runs max_lines lines nodes end (rest ++ node_lines) in
      let behind =
        if ltb max_lines (length node_lines)
        then unless_empty rest ++ (chunk_by_lines max_lines node_lines ++ large)
        else small in
      out ++ (flushed max_lines current' node_lines ++ behind)

  -- `chunk_code` on whether the source is blank, its lines, and its nodes, if it parses.
  unfoldable pub chunk_code : Bool → ℕ → List L → Option (List (ℕ × ℕ)) → List (List L)
  unfolding code_runs
  chunk_code true max_lines lines nodes = []
  chunk_code false max_lines lines none = chunk_by_lines max_lines lines
  chunk_code false max_lines lines (some nodes) = code_runs max_lines lines nodes 0 []
