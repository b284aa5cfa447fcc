-- ===== src/Window/Tail.antt =====
-- The newest messages that fit a token budget: `_window_messages` and `_split_overflow` of
-- backend/agent/nodes.py.
use mathlib.Core.List.{reverse}
use engineering_memory_agent.Agent.Message.{Message, is_system}
use engineering_memory_agent.Common.{
  ℕ, ◌+◌, ◌-◌, Bool, true, false, ◌&&◌, List, [], ◌∷◌, ◌++◌, length, take, ltb, ◌==◌, if◌then◌else◌,
}

unfoldable pub systems : List Message → List Message
systems [] = []
systems (m ∷ ms) = if is_system m then m ∷ systems ms else systems ms

unfoldable pub others : List Message → List Message
others [] = []
others (m ∷ ms) = if is_system m then others ms else m ∷ others ms

-- The loop over the messages from the newest on: `started` says that `tail` is not empty.
unfoldable pub keep : (Message → ℕ) → ℕ → Bool → ℕ → List Message → List Message
keep tokens budget started used [] = []
keep tokens budget started used (m ∷ ms) =
    let rest = keep tokens budget true (used + tokens m) ms in
    if started && ltb budget (used + tokens m) then [] else m ∷ rest

-- `tail` of `_window_messages` and of `_split_overflow`.
unfoldable pub newest : (Message → ℕ) → ℕ → List Message → List Message
unfolding keep
newest tokens budget messages = reverse (keep tokens budget false 0 (reverse messages))

-- `_window_messages`
unfoldable pub window_messages : (Message → ℕ) → ℕ → List Message → List Message
unfolding newest systems others
window_messages tokens budget messages =
    let rest = others messages in
    let retained = newest tokens budget rest in
    if length rest == 0
    then messages
    else if length retained == length rest
    then messages
    else systems messages ++ retained

-- `_split_overflow`
unfoldable pub split_overflow : (Message → ℕ) → ℕ → List Message → List Message × List Message
unfolding newest
split_overflow tokens budget messages =
    let tail = newest tokens budget messages in
    (take (length messages - length tail) messages, tail)

abbrev pub total : (Message → ℕ) → List Message → ℕ
total tokens [] = 0
total tokens (m ∷ ms) = tokens m + total tokens ms
