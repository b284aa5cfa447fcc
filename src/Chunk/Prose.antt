-- ===== src/Chunk/Prose.antt =====
-- `chunk_text` and `_split_recursive` of backend/service/ingestion/chunk.py.
use engineering_memory_agent.Common.{
  ℕ, ◌+◌, ◌-◌, Bool, List, [], ◌∷◌, ◌++◌, length, leb, ltb, if◌then◌else◌,
}
use engineering_memory_agent.Chunk.Hard.{drop, hard_split}

-- What lies outside this code: `re.split` with the separator as a capturing group, and whether
-- `strip` leaves nothing. `finest` is the last of the default separators.
pub record Regex (Sep A : Type 0) : Type 0 where
  pub split : Sep → List A → List (List A)
  pub is_blank : List A → Bool
  pub finest : Sep

module _ {A : Type 0} where
  abbrev pub last_or : List A → List (List A) → List A
  last_or prev [] = prev
  last_or prev (c ∷ cs) = last_or c cs

  -- The loop over the parts and what follows it; `sub` splits with the separators that remain.
  unfoldable pub gather : (List A → List (List A)) → ℕ → List (List A) → List A → List (List A)
  gather sub max_size [] buf =
      if ltb max_size (length buf) then sub buf else hard_split max_size buf
  gather sub max_size (part ∷ parts) buf =
      let joined = gather sub max_size parts (buf ++ part) in
      let cut = gather sub max_size parts [] in
      let started = gather sub max_size parts part in
      if leb (length buf + length part) max_size
      then joined
      else (if ltb 0 (length buf) then sub buf else [])
        ++ (if ltb max_size (length part) then sub part ++ cut else started)

  -- The overlap loop behind the chunk `prev`; `resplit` splits at the finest separator.
  unfoldable pub overlapped :
      (List A → List (List A)) → ℕ → ℕ → List A → List (List A) → List (List A)
  overlapped resplit max_size overlap prev [] = []
  overlapped resplit max_size overlap prev (c ∷ cs) =
      let combined =
        if ltb overlap (length prev) then drop (length prev - overlap) prev ++ c else c in
      let trimmed = resplit combined in
      let again = overlapped resplit max_size overlap (last_or prev trimmed) cs in
      let next = overlapped resplit max_size overlap combined cs in
      if ltb max_size (length combined) then trimmed ++ again else combined ∷ next

  unfoldable pub with_overlap : (List A → List (List A)) → ℕ → ℕ → List (List A) → List (List A)
  unfolding overlapped
  with_overlap resplit max_size overlap [] = []
  with_overlap resplit max_size overlap (c ∷ cs) =
      if ltb 0 overlap then c ∷ overlapped resplit max_size overlap c cs else c ∷ cs

module _ {Sep A : Type 0} (re : Regex Sep A) where
  -- `_split_recursive(text, _DEFAULT_SEPARATORS[-1:], max_size, overlap=0)`
  unfoldable pub resplit : ℕ → List A → List (List A)
  unfolding gather
  resplit max_size text = gather (hard_split max_size) max_size (re.split re.finest text) []

  -- `_split_recursive`; without separators, the hard cut that its calls make in that case.
  unfoldable pub split_recursive : List Sep → ℕ → ℕ → List A → List (List A)
  unfolding with_overlap resplit
  split_recursive [] max_size overlap text = hard_split max_size text
  split_recursive (sep ∷ remaining) max_size overlap text =
      with_overlap (resplit max_size) max_size overlap
        (gather (split_recursive remaining max_size overlap) max_size (re.split sep text) [])

  unfoldable pub chunk_text : List Sep → ℕ → ℕ → List A → List (List A)
  unfolding split_recursive
  chunk_text separators max_size overlap text =
      if re.is_blank text then [] else split_recursive separators max_size overlap text
