-- ===== src/Chunk/Lossless.antt =====
-- The content of the chunks that `chunk_text` of backend/service/ingestion/chunk.py makes without
-- overlap.
use engineering_memory_agent.Common.{
  ℕ, ◌+◌, ◌<◌, ◌≡◌, refl, sym, ap, ◌∙◌, Bool, true, false, List, [], ◌∷◌, ◌++◌, append-nil,
  append_assoc, arith, length, leb, ltb, if◌then◌else◌,
}
use engineering_memory_agent.Chunk.Hard.{join, join-hard_split, join-append}
use engineering_memory_agent.Chunk.Prose.{
  Regex, gather, with_overlap, resplit, split_recursive, chunk_text,
}

module _ {A : Type 0} where
  join-if :
      (b : Bool) (xs ys : List (List A)) (t : List A)
      → join xs ≡ t
      → join ys ≡ t
      → join (if b then xs else ys) ≡ t
  join-if true xs ys t p q = p
  join-if false xs ys t p q = q

  join-flush :
      (buf : List A) (out : List (List A))
      → join out ≡ buf
      → join (if ltb 0 (length buf) then out else []) ≡ buf
  join-flush [] out e = refl
  join-flush (x ∷ buf) out e =
      let full : ltb 0 (length (x ∷ buf)) ≡ true = ground arith in rw full e

  no_overlap :
      (again : List A → List (List A)) (size : ℕ) (cs : List (List A))
      → with_overlap again size 0 cs ≡ cs
  unfolding with_overlap
  no_overlap again size [] = refl
  no_overlap again size (c ∷ cs) = refl

  join-gather :
      (sub : List A → List (List A)) (size : ℕ) (parts : List (List A)) (buf : List A)
      → 0 < size
      → ((t : List A) → join (sub t) ≡ t)
      → join (gather sub size parts buf) ≡ buf ++ join parts
  unfolding gather
  join-gather sub size [] buf pos h =
      join-if (ltb size (length buf)) _ _ buf (h buf) (join-hard_split size buf pos)
      ∙ sym (append-nil buf)
  join-gather sub size (part ∷ parts) buf pos h =
      let joined = join-gather sub size parts (buf ++ part) pos h in
      let cut = join-gather sub size parts [] pos h in
      let started = join-gather sub size parts part pos h in
      let flushed = if ltb 0 (length buf) then sub buf else [] in
      let rest =
        if ltb size (length part)
        then sub part ++ gather sub size parts []
        else gather sub size parts part in
      join-if (leb (length buf + length part) size) _ _ (buf ++ (part ++ join parts))
        (joined ∙ append_assoc buf part (join parts))
        (join-append flushed rest
          ∙ ap (λ l. l ++ join rest) (join-flush buf (sub buf) (h buf))
          ∙ ap (λ l. buf ++ l)
              (join-if (ltb size (length part)) _ _ (part ++ join parts)
                (join-append (sub part) (gather sub size parts [])
                  ∙ ap (λ l. l ++ join (gather sub size parts [])) (h part)
                  ∙ ap (λ l. part ++ l) cut)
                started))

module _ {Sep A : Type 0} (re : Regex Sep A)
    (splits : (s : Sep) (t : List A) → join (re.split s t) ≡ t) where
  join-split_recursive :
      (seps : List Sep) (size : ℕ) (text : List A)
      → 0 < size
      → join (split_recursive re seps size 0 text) ≡ text
  unfolding split_recursive
  join-split_recursive [] size text pos = join-hard_split size text pos
  join-split_recursive (sep ∷ seps) size text pos =
      ap join (
        no_overlap (resplit re size) size
          (gather (split_recursive re seps size 0) size (re.split sep text) []))
      ∙ join-gather (split_recursive re seps size 0) size (re.split sep text) [] pos
          (λ t. join-split_recursive seps size t pos)
      ∙ splits sep text

  -- Without overlap, and with a positive maximum size, the chunks of a text that is not blank are
  -- consecutive pieces of it: joined, they are the text, provided that the parts of `re.split` with a
  -- capturing group, joined, are the text that it splits.
  pub chunk_text_lossless :
      (seps : List Sep) (size : ℕ) (text : List A)
      → 0 < size
      → re.is_blank text ≡ false
      → join (chunk_text re seps size 0 text) ≡ text
  unfolding chunk_text
  chunk_text_lossless seps size text pos e = rw e (join-split_recursive seps size text pos)
