-- ===== src/Window/Budget.antt =====
-- The tail of a history and its budget in backend/agent/nodes.py.
use mathlib.Core.List.{reverse, reverse-append, reverse-reverse}
use engineering_memory_agent.Common.{
  ℕ, suc, ◌+◌, ◌-◌, ◌≤◌, ◌<◌, ◌≡◌, ◌⊎◌, refl, sym, ap, ◌∙◌, inl, inr, Bool, true, false, ◌&&◌, List,
  [], ◌∷◌, ◌++◌, arith, length, length-append, take, ltb, if◌then◌else◌, Bool-cases,
}
use engineering_memory_agent.Agent.Message.{Message}
use engineering_memory_agent.Window.Tail.{keep, newest, split_overflow, total}

-- What `keep` leaves out.
pub skip : (Message → ℕ) → ℕ → Bool → ℕ → List Message → List Message
skip tokens budget started used [] = []
skip tokens budget started used (m ∷ ms) =
    let rest = skip tokens budget true (used + tokens m) ms in
    if started && ltb budget (used + tokens m) then m ∷ ms else rest

keep-skip :
    (tokens : Message → ℕ) (budget : ℕ) (started : Bool) (used : ℕ) (ms : List Message)
    → keep tokens budget started used ms ++ skip tokens budget started used ms ≡ ms
unfolding keep skip
keep-skip tokens budget started used [] = refl
keep-skip tokens budget started used (m ∷ ms) =
    elim (Bool-cases (started && ltb budget (used + tokens m))) [
      | inl e ↦ rw e refl
      | inr e ↦ rw e (ap (λ l. m ∷ l) (keep-skip tokens budget true (used + tokens m) ms))
    ]

total-keep_le :
    (tokens : Message → ℕ) (budget used : ℕ) (ms : List Message)
    → used ≤ budget
    → used + total tokens (keep tokens budget true used ms) ≤ budget
unfolding keep
total-keep_le tokens budget used [] h = omega arith
total-keep_le tokens budget used (m ∷ ms) h = elim (Bool-cases (ltb budget (used + tokens m))) [
  | inl e ↦ rw e (omega arith)
  | inr e ↦
      let room : used + tokens m ≤ budget = ground (arith, e) in
      rw e (omega (arith, total-keep_le tokens budget (used + tokens m) ms room))
]

keep_over :
    (tokens : Message → ℕ) (budget used : ℕ) (ms : List Message)
    → budget < used
    → keep tokens budget true used ms ≡ []
unfolding keep
keep_over tokens budget used [] h = refl
keep_over tokens budget used (m ∷ ms) h =
    let full : ltb budget (used + tokens m) ≡ true = ground arith in rw full refl

-- The newest message is kept, and either all that is kept is within the budget or it is kept alone.
keep_fits :
    (tokens : Message → ℕ) (budget : ℕ) (m : Message) (ms : List Message)
    → let kept = keep tokens budget false 0 (m ∷ ms) in
      (0 < length kept) × ((total tokens kept ≤ budget) ⊎ (length kept ≡ 1))
unfolding keep
keep_fits tokens budget m ms = elim (Bool-cases (ltb budget (tokens m))) [
  | inl e ↦
      let over : keep tokens budget true (0 + tokens m) ms ≡ [] =
        keep_over tokens budget (0 + tokens m) ms (ground (arith, e)) in
      (omega arith, inr (ap (λ (l : List Message). suc (length l)) over))
  | inr e ↦
      let h = total-keep_le tokens budget (0 + tokens m) ms (ground (arith, e)) in
      (omega arith, inl (omega (arith, h)))
]

length-reverse : (ms : List Message) → length (reverse ms) ≡ length ms
length-reverse [] = refl
length-reverse (m ∷ ms) =
    ap length (reverse-append (m ∷ []) ms)
    ∙ length-append (reverse ms) (m ∷ [])
    ∙ omega (arith, length-reverse ms)

total-append :
    (tokens : Message → ℕ) (xs ys : List Message)
    → total tokens (xs ++ ys) ≡ total tokens xs + total tokens ys
total-append tokens [] ys = omega arith
total-append tokens (x ∷ xs) ys = omega (arith, total-append tokens xs ys)

total-reverse :
    (tokens : Message → ℕ) (ms : List Message) → total tokens (reverse ms) ≡ total tokens ms
total-reverse tokens [] = refl
total-reverse tokens (m ∷ ms) =
    ap (total tokens) (reverse-append (m ∷ []) ms)
    ∙ total-append tokens (reverse ms) (m ∷ [])
    ∙ omega (arith, total-reverse tokens ms)

pub newest_suffix :
    (tokens : Message → ℕ) (budget : ℕ) (ms : List Message)
    → reverse (skip tokens budget false 0 (reverse ms)) ++ newest tokens budget ms ≡ ms
unfolding newest
newest_suffix tokens budget ms =
    let back = reverse ms in
    let kept = keep tokens budget false 0 back in
    let left = skip tokens budget false 0 back in
    sym (reverse-append kept left)
    ∙ ap reverse (keep-skip tokens budget false 0 back)
    ∙ reverse-reverse ms

take-append : (xs ys : List Message) → take (length xs) (xs ++ ys) ≡ xs
take-append [] ys = refl
take-append (x ∷ xs) ys = ap (λ l. x ∷ l) (take-append xs ys)

overflow_is_rest :
    (ms left tail : List Message) → left ++ tail ≡ ms → take (length ms - length tail) ms ≡ left
overflow_is_rest ms left tail e =
    let n : length ms - length tail ≡ length left =
      omega (arith, ap length (sym e), length-append left tail) in
    rw n (ap (take (length left)) (sym e) ∙ take-append left tail)

newest_fits :
    (tokens : Message → ℕ) (budget : ℕ) (back : List Message)
    → 0 < length back
    → let kept = keep tokens budget false 0 back in
      (0 < length kept) × ((total tokens kept ≤ budget) ⊎ (length kept ≡ 1))
newest_fits tokens budget [] h = absurd (omega arith)
newest_fits tokens budget (m ∷ ms) h = keep_fits tokens budget m ms

-- Splitting a history for compaction loses nothing and keeps the order: overflow and tail make up
-- the history. The tail of a history that is not empty holds the newest message, and its tokens
-- are within the budget unless that message stands in it alone, whatever the estimate of tokens.
pub split_overflow_lossless :
    (tokens : Message → ℕ) (budget : ℕ) (ms : List Message)
    → 0 < length ms
    → let (overflow, tail) = split_overflow tokens budget ms in
      (overflow ++ tail ≡ ms)
      × (0 < length tail)
      × ((total tokens tail ≤ budget) ⊎ (length tail ≡ 1))
unfolding split_overflow newest
split_overflow_lossless tokens budget ms h =
    let kept = keep tokens budget false 0 (reverse ms) in
    let left = reverse (skip tokens budget false 0 (reverse ms)) in
    let whole = newest_suffix tokens budget ms in
    let (some_kept, fits) =
      newest_fits tokens budget (reverse ms) (omega (arith, length-reverse ms)) in
    (
      ap (λ l. l ++ newest tokens budget ms)
            (overflow_is_rest ms left (newest tokens budget ms) whole)
          ∙ whole,
      omega (arith, length-reverse kept),
      elim fits [
        | inl f ↦ inl (omega (arith, total-reverse tokens kept))
        | inr f ↦ inr (length-reverse kept ∙ f)
      ],
    )
