-- ===== src/Chunk/Bounds.antt =====
-- The sizes of the chunks that `chunk_text` of backend/service/ingestion/chunk.py makes.
use engineering_memory_agent.Common.{
  ℕ, ◌+◌, ◌-◌, ◌<◌, ◌≡◌, Bool, true, false, inl, inr, List, [], ◌∷◌, ◌++◌, arith, length,
  length-append, All, leb, ltb, if◌then◌else◌, Bool-cases,
}
use engineering_memory_agent.Chunk.Hard.{drop, hard_split, Fits, hard_split-Fits, All-append}
use engineering_memory_agent.Chunk.Prose.{
  Regex, last_or, gather, overlapped, with_overlap, resplit, split_recursive, chunk_text,
}

module _ {A : Type 0} where
  All-if :
      (P : List A → Type 0) (b : Bool) (xs ys : List (List A))
      → All P xs
      → All P ys
      → All P (if b then xs else ys)
  All-if P true xs ys p q = p
  All-if P false xs ys p q = q

  gather-Fits :
      (sub : List A → List (List A)) (size : ℕ) (parts : List (List A)) (buf : List A)
      → 0 < size
      → ((t : List A) → All (Fits size) (sub t))
      → All (Fits size) (gather sub size parts buf)
  unfolding gather
  gather-Fits sub size [] buf pos h =
      All-if (Fits size) (ltb size (length buf)) _ _ (h buf) (hard_split-Fits size buf pos)
  gather-Fits sub size (part ∷ parts) buf pos h =
      let joined = gather-Fits sub size parts (buf ++ part) pos h in
      let cut = gather-Fits sub size parts [] pos h in
      let started = gather-Fits sub size parts part pos h in
      All-if (Fits size) (leb (length buf + length part) size) _ _ joined (
        All-append (Fits size) _ _ (All-if (Fits size) (ltb 0 (length buf)) _ _ (h buf) tt) (
          All-if (Fits size) (ltb size (length part)) _ _ (All-append (Fits size) _ _ (h part) cut)
            started))

  combined-Fits :
      (size overlap : ℕ) (prev c : List A)
      → Fits size c
      → let combined =
          if ltb overlap (length prev) then drop (length prev - overlap) prev ++ c else c in
        ltb size (length combined) ≡ false → Fits size combined
  combined-Fits size overlap prev c f e = elim (Bool-cases (ltb overlap (length prev))) [
    | inl l ↦
        let tail = drop (length prev - overlap) prev in
        let e' : ltb size (length (tail ++ c)) ≡ false = rw l at e in
        rw l (omega (arith, length-append tail c, f.0), ground (arith, e'))
    | inr l ↦ rw l f
  ]

  overlapped-Fits :
      (again : List A → List (List A)) (size overlap : ℕ) (prev : List A) (cs : List (List A))
      → ((t : List A) → All (Fits size) (again t))
      → All (Fits size) cs
      → All (Fits size) (overlapped again size overlap prev cs)
  unfolding overlapped
  overlapped-Fits again size overlap prev [] h f = tt
  overlapped-Fits again size overlap prev (c ∷ cs) h f =
      let combined =
        if ltb overlap (length prev) then drop (length prev - overlap) prev ++ c else c in
      elim (Bool-cases (ltb size (length combined))) [
        | inl e ↦ rw e (
            All-append (Fits size) _ _ (h combined)
              (overlapped-Fits again size overlap (last_or prev (again combined)) cs h f.1))
        | inr e ↦ rw e (
          combined-Fits size overlap prev c f.0 e,
          overlapped-Fits again size overlap combined cs h f.1,
        )
      ]

  with_overlap-Fits :
      (again : List A → List (List A)) (size overlap : ℕ) (cs : List (List A))
      → ((t : List A) → All (Fits size) (again t))
      → All (Fits size) cs
      → All (Fits size) (with_overlap again size overlap cs)
  unfolding with_overlap
  with_overlap-Fits again size overlap [] h f = tt
  with_overlap-Fits again size overlap (c ∷ cs) h f =
      All-if (Fits size) (ltb 0 overlap) _ _ (f.0, overlapped-Fits again size overlap c cs h f.1) f

module _ {Sep A : Type 0} (re : Regex Sep A) where
  split_recursive-Fits :
      (seps : List Sep) (size overlap : ℕ) (text : List A)
      → 0 < size
      → All (Fits size) (split_recursive re seps size overlap text)
  unfolding split_recursive resplit
  split_recursive-Fits [] size overlap text pos = hard_split-Fits size text pos
  split_recursive-Fits (sep ∷ seps) size overlap text pos =
      with_overlap-Fits (resplit re size) size overlap _
        (λ t.
          gather-Fits (hard_split size) size (re.split re.finest t) [] pos
            (λ u. hard_split-Fits size u pos))
        (gather-Fits (split_recursive re seps size overlap) size (re.split sep text) [] pos
          (λ t. split_recursive-Fits seps size overlap t pos))

  -- No chunk is empty and none is longer than the maximum size, whatever the overlap, the separators
  -- and the text, and whatever the regular expressions match, if the maximum size is positive.
  pub chunk_text-Fits :
      (seps : List Sep) (size overlap : ℕ) (text : List A)
      → 0 < size
      → All (Fits size) (chunk_text re seps size overlap text)
  unfolding chunk_text
  chunk_text-Fits seps size overlap text pos =
      All-if (Fits size) (re.is_blank text) _ _ tt (split_recursive-Fits seps size overlap text pos)
