-- ===== src/Chunk/Hard.antt =====
-- Cutting into pieces of a fixed size in backend/service/ingestion/chunk.py: `_hard_split` cuts
-- characters and `_chunk_by_lines` cuts lines.
use engineering_memory_agent.Common.{
  ℕ, zero, suc, ◌-◌, ◌≤◌, ◌<◌, ◌≡◌, refl, sym, ap, ◌∙◌, List, [], ◌∷◌, ◌++◌, append_assoc, arith,
  length, take, All,
}

module _ {ℓ} {A : Type ℓ} where
  abbrev pub drop : ℕ → List A → List A
  drop zero xs = xs
  drop (suc n) [] = []
  drop (suc n) (x ∷ xs) = drop n xs

  -- `"".join`
  abbrev pub join : List (List A) → List A
  join [] = []
  join (x ∷ xs) = x ++ join xs

  -- `text[i : i + size] for i in range(0, len(text), size)` on fuel. A size of 0, which raises in the
  -- source, is left to the callers.
  unfoldable pub pieces : ℕ → ℕ → List A → List (List A)
  pieces fuel size [] = []
  pieces zero size (x ∷ xs) = []
  pieces (suc fuel) size (x ∷ xs) = take size (x ∷ xs) ∷ pieces fuel size (drop size (x ∷ xs))

  -- `_hard_split`
  unfoldable pub hard_split : ℕ → List A → List (List A)
  unfolding pieces
  hard_split max_size text = pieces (length text) max_size text

  -- A chunk that is not empty and at most `size` long.
  abbrev pub Fits : ℕ → List A → Type 0
  Fits size c = (0 < length c) × (length c ≤ size)

  length-take_le : (n : ℕ) (xs : List A) → length (take n xs) ≤ n
  length-take_le zero xs = omega arith
  length-take_le (suc n) [] = omega arith
  length-take_le (suc n) (x ∷ xs) = omega (arith, length-take_le n xs)

  length-drop : (n : ℕ) (xs : List A) → length (drop n xs) ≡ length xs - n
  length-drop zero xs = omega arith
  length-drop (suc n) [] = omega arith
  length-drop (suc n) (x ∷ xs) = omega (arith, length-drop n xs)

  pub take-drop : (n : ℕ) (xs : List A) → take n xs ++ drop n xs ≡ xs
  take-drop zero xs = refl
  take-drop (suc n) [] = refl
  take-drop (suc n) (x ∷ xs) = ap (λ l. x ∷ l) (take-drop n xs)

  pieces-Fits : (fuel size : ℕ) (xs : List A) → 0 < size → All (Fits size) (pieces fuel size xs)
  unfolding pieces
  pieces-Fits fuel size [] h = tt
  pieces-Fits zero size (x ∷ xs) h = tt
  pieces-Fits (suc fuel) zero (x ∷ xs) h = absurd (omega arith)
  pieces-Fits (suc fuel) (suc n) (x ∷ xs) h =
      ((omega arith, omega (arith, length-take_le n xs)), pieces-Fits fuel (suc n) (drop n xs) h)

  join-pieces :
      (fuel size : ℕ) (xs : List A) → 0 < size → length xs ≤ fuel → join (pieces fuel size xs) ≡ xs
  unfolding pieces
  join-pieces fuel size [] h k = refl
  join-pieces zero size (x ∷ xs) h k = absurd (omega arith)
  join-pieces (suc fuel) zero (x ∷ xs) h k = absurd (omega arith)
  join-pieces (suc fuel) (suc n) (x ∷ xs) h k =
      ap (λ l. take (suc n) (x ∷ xs) ++ l)
        (join-pieces fuel (suc n) (drop n xs) h (omega (arith, length-drop n xs)))
      ∙ take-drop (suc n) (x ∷ xs)

  pub hard_split-Fits :
      (size : ℕ) (text : List A) → 0 < size → All (Fits size) (hard_split size text)
  unfolding hard_split
  hard_split-Fits size text h = pieces-Fits (length text) size text h

  pub join-hard_split : (size : ℕ) (text : List A) → 0 < size → join (hard_split size text) ≡ text
  unfolding hard_split
  join-hard_split size text h = join-pieces (length text) size text h (omega arith)

  pub All-append {κ} : (P : A → Type κ) (xs ys : List A) → All P xs → All P ys → All P (xs ++ ys)
  All-append P [] ys p q = q
  All-append P (x ∷ xs) ys p q = (p.0, All-append P xs ys p.1 q)

  pub join-append : (xs ys : List (List A)) → join (xs ++ ys) ≡ join xs ++ join ys
  join-append [] ys = refl
  join-append (x ∷ xs) ys =
      ap (λ l. x ++ l) (join-append xs ys) ∙ sym (append_assoc x (join xs) (join ys))
