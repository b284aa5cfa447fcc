-- ===== src/Window/Systems.antt =====
-- `_window_messages` of backend/agent/nodes.py: system messages and the rest.
use mathlib.Core.List.{reverse}
use engineering_memory_agent.Common.{
  ℕ, ◌≡◌, ◌≤◌, ◌<◌, ◌⊎◌, arith, length-append, refl, sym, ap, ◌∙◌, subst, inl, inr, true, false,
  List, [], ◌∷◌, ◌++◌, append-nil, length, ◌==◌, All, Bool-cases,
}
use engineering_memory_agent.Agent.Message.{Message, is_system}
use engineering_memory_agent.Window.Tail.{
  systems, others, newest, window_messages, total, split_overflow,
}
use engineering_memory_agent.Window.Budget.{skip, newest_suffix, split_overflow_lossless}

abbrev pub IsOther : Message → Type 0
IsOther m = is_system m ≡ false

pub systems-append : (xs ys : List Message) → systems (xs ++ ys) ≡ systems xs ++ systems ys
unfolding systems
systems-append [] ys = refl
systems-append (x ∷ xs) ys = elim (Bool-cases (is_system x)) [
  | inl e ↦ rw e (ap (λ l. x ∷ l) (systems-append xs ys))
  | inr e ↦ rw e (systems-append xs ys)
]

pub others-append : (xs ys : List Message) → others (xs ++ ys) ≡ others xs ++ others ys
unfolding others
others-append [] ys = refl
others-append (x ∷ xs) ys = elim (Bool-cases (is_system x)) [
  | inl e ↦ rw e (others-append xs ys)
  | inr e ↦ rw e (ap (λ l. x ∷ l) (others-append xs ys))
]

pub systems-systems : (ms : List Message) → systems (systems ms) ≡ systems ms
unfolding systems
systems-systems [] = refl
systems-systems (m ∷ ms) = elim (Bool-cases (is_system m)) [
  | inl e ↦ rw e (rw e (ap (λ l. m ∷ l) (systems-systems ms)))
  | inr e ↦ rw e (systems-systems ms)
]

pub others-systems : (ms : List Message) → others (systems ms) ≡ []
unfolding others systems
others-systems [] = refl
others-systems (m ∷ ms) = elim (Bool-cases (is_system m)) [
  | inl e ↦ rw e (rw e (others-systems ms))
  | inr e ↦ rw e (others-systems ms)
]

pub All-others : (ms : List Message) → All IsOther (others ms)
unfolding others
All-others [] = tt
All-others (m ∷ ms) = elim (Bool-cases (is_system m)) [
  | inl e ↦ rw e (All-others ms)
  | inr e ↦ rw e (e, All-others ms)
]

pub All-suffix : (xs ys : List Message) → All IsOther (xs ++ ys) → All IsOther ys
All-suffix [] ys h = h
All-suffix (x ∷ xs) ys h = All-suffix xs ys h.1

pub others-All : (ms : List Message) → All IsOther ms → (others ms ≡ ms) × (systems ms ≡ [])
unfolding others systems
others-All [] h = (refl, refl)
others-All (m ∷ ms) h = let (a, b) = others-All ms h.1 in (rw h.0 (ap (λ l. m ∷ l) a), rw h.0 b)

-- The window `w` of a conversation: all of its system messages, and the end of the rest, which is not
-- empty and within the budget unless it is one message.
pub record IsWindow (tokens : Message → ℕ) (budget : ℕ) (ms w : List Message) : Type 0 where
  pub all_systems : systems w ≡ systems ms
  pub dropped : List Message
  pub newest_last : dropped ++ others w ≡ others ms
  pub some_left : 0 < length (others w)
  pub fits : (total tokens (others w) ≤ budget) ⊎ (length (others w) ≡ 1)

same_of_length :
    (left tail ms : List Message)
    → left ++ tail ≡ ms
    → (length tail == length ms) ≡ true
    → tail ≡ ms
same_of_length [] tail ms e n = e
same_of_length (l ∷ left) tail ms e n =
    absurd (ground (arith, ap length (sym e), length-append left tail, n))

-- The two parts of a window that is cut.
pub cut_parts :
    (tokens : Message → ℕ) (budget : ℕ) (ms : List Message)
    → let cut = systems ms ++ newest tokens budget (others ms) in
      (systems cut ≡ systems ms) × (others cut ≡ newest tokens budget (others ms))
cut_parts tokens budget ms =
    let tail = newest tokens budget (others ms) in
    let suffix = newest_suffix tokens budget (others ms) in
    let (same, none_left) = others-All tail (
      All-suffix (reverse (skip tokens budget false 0 (reverse (others ms)))) tail
        (subst (All IsOther) (sym suffix) (All-others ms))) in
    (
      systems-append (systems ms) tail
          ∙ rw (systems-systems ms, none_left) (append-nil (systems ms)),
      others-append (systems ms) tail ∙ rw (others-systems ms, same) refl,
    )

module _ (tokens : Message → ℕ) (budget : ℕ) (ms : List Message)
    (some_other : 0 < length (others ms)) where
  tail_fits :
      let tail = newest tokens budget (others ms) in
      (0 < length tail) × ((total tokens tail ≤ budget) ⊎ (length tail ≡ 1))
  unfolding split_overflow
  tail_fits =
      let (_, left, fits) = split_overflow_lossless tokens budget (others ms) some_other in
      (left, fits)

  whole-IsWindow : newest tokens budget (others ms) ≡ others ms → IsWindow tokens budget ms ms
  whole-IsWindow same =
      let (left, fits) = tail_fits in
      record {
        all_systems = refl;
        dropped = [];
        newest_last = refl;
        some_left = some_other;
        fits = subst (λ l. (total tokens l ≤ budget) ⊎ (length l ≡ 1)) same fits;
      }

  cut-IsWindow : IsWindow tokens budget ms (systems ms ++ newest tokens budget (others ms))
  cut-IsWindow =
      let tail = newest tokens budget (others ms) in
      let suffix = newest_suffix tokens budget (others ms) in
      let (kept, rest) = cut_parts tokens budget ms in
      let (left, fits) = tail_fits in
      record {
        all_systems = kept;
        dropped = reverse (skip tokens budget false 0 (reverse (others ms)));
        newest_last = rw rest suffix;
        some_left = rw rest left;
        fits = subst (λ l. (total tokens l ≤ budget) ⊎ (length l ≡ 1)) (sym rest) fits;
      }

  -- Windowing a conversation with a message that is not a system message keeps all system messages,
  -- in order, and ends with the newest other messages, in order. At least one is kept, and their
  -- tokens are within the budget unless only one is kept, whatever the estimate of tokens.
  pub window_messages-IsWindow : IsWindow tokens budget ms (window_messages tokens budget ms)
  unfolding window_messages
  window_messages-IsWindow = elim (Bool-cases (length (others ms) == 0)) [
    | inl e ↦ absurd (ground (arith, e))
    | inr e ↦ elim (Bool-cases (length (newest tokens budget (others ms)) == length (others ms))) [
      | inl f ↦
          rw (e, f)
            (whole-IsWindow (
              same_of_length (reverse (skip tokens budget false 0 (reverse (others ms))))
                (newest tokens budget (others ms)) (others ms)
                (newest_suffix tokens budget (others ms)) f))
      | inr f ↦ rw (e, f) cut-IsWindow
    ]
  ]
