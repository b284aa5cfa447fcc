-- ===== src/Agent/Reducer.antt =====
-- A reducer of messages for runs of the graph of backend/agent/graph.py: a message with the id of one
-- that is there takes its place, and any other is appended.
use mathlib.Core.List.{reverse, reverse-append}
use engineering_memory_agent.Common.{
  ◌<◌, ◌≡◌, refl, sym, ap, ◌∙◌, inl, inr, arith, Bool, false, String, Option, none, some, List, [],
  ◌∷◌, ◌++◌, length, All, str_eq, if◌then◌else◌, Bool-cases,
}
use engineering_memory_agent.Agent.Message.{
  AiMessage, Message, system, human, ai, tool, other, is_human,
}
use engineering_memory_agent.Agent.Turn.{newest_is_human, is_new_user_turn}
use engineering_memory_agent.Agent.Ends.{IsNotHuman}

abbrev pub id_of : Message → Option String
id_of m = elim m [ system _ ↦ none | human _ ↦ none | ai a ↦ a.id | tool t ↦ t.id | other _ ↦ none ]

abbrev pub has_id : String → Message → Bool
has_id i m = elim (id_of m) [ none ↦ false | some j ↦ str_eq j i ]

abbrev pub replace_or_append : Message → String → List Message → List Message
replace_or_append m i [] = m ∷ []
replace_or_append m i (x ∷ xs) =
    let rest = replace_or_append m i xs in if has_id i x then m ∷ xs else x ∷ rest

abbrev pub place : Option String → List Message → Message → List Message
place none ms m = ms ++ (m ∷ [])
place (some i) ms m = replace_or_append m i ms

abbrev pub add_by_id : List Message → List Message → List Message
add_by_id ms [] = ms
add_by_id ms (m ∷ new) = add_by_id (place (id_of m) ms m) new

front_kept :
    (l : List Message) (x y : Message)
    → newest_is_human ((l ++ (y ∷ [])) ++ (x ∷ [])) ≡ newest_is_human (l ++ (y ∷ []))
front_kept [] x y = refl
front_kept (z ∷ zs) x y = refl

-- The first of several messages is not the newest.
cons_turn :
    (x y : Message) (ys : List Message) → is_new_user_turn (x ∷ y ∷ ys) ≡ is_new_user_turn (y ∷ ys)
unfolding is_new_user_turn
cons_turn x y ys =
    let inner = reverse-append (y ∷ []) ys in
    ap newest_is_human (reverse-append (x ∷ []) (y ∷ ys))
    ∙ ap (λ (l : List Message). newest_is_human (l ++ (x ∷ []))) inner
    ∙ front_kept (reverse ys) x y
    ∙ sym (ap newest_is_human inner)

cons_late :
    (x : Message) (ms : List Message)
    → 0 < length ms
    → is_new_user_turn ms ≡ false
    → is_new_user_turn (x ∷ ms) ≡ false
cons_late x [] h k = absurd (omega arith)
cons_late x (y ∷ ys) h k = cons_turn x y ys ∙ k

rest_late :
    (x : Message) (ms : List Message)
    → is_new_user_turn (x ∷ ms) ≡ false
    → is_new_user_turn ms ≡ false
unfolding is_new_user_turn
rest_late x [] h = refl
rest_late x (y ∷ ys) h = sym (cons_turn x y ys) ∙ h

head_late :
    (x m : Message) (ms : List Message)
    → is_human m ≡ false
    → is_new_user_turn (x ∷ ms) ≡ false
    → is_new_user_turn (m ∷ ms) ≡ false
unfolding is_new_user_turn
head_late x m [] n h = n
head_late x m (y ∷ ys) n h = cons_turn m y ys ∙ sym (cons_turn x y ys) ∙ h

replace_some :
    (m : Message) (i : String) (ms : List Message) → 0 < length (replace_or_append m i ms)
replace_some m i [] = omega arith
replace_some m i (x ∷ xs) = elim (Bool-cases (has_id i x)) [
  | inl e ↦ rw e (omega arith)
  | inr e ↦ rw e (omega arith)
]

replace_keeps :
    (m : Message) (i : String) (ms : List Message)
    → is_human m ≡ false
    → is_new_user_turn ms ≡ false
    → is_new_user_turn (replace_or_append m i ms) ≡ false
unfolding is_new_user_turn
replace_keeps m i [] n h = n
replace_keeps m i (x ∷ xs) n h = elim (Bool-cases (has_id i x)) [
  | inl e ↦ rw e (head_late x m xs n h)
  | inr e ↦ rw e (
      cons_late x (replace_or_append m i xs) (replace_some m i xs)
        (replace_keeps m i xs n (rest_late x xs h)))
]

append_keeps :
    (ms : List Message) (m : Message)
    → is_human m ≡ false
    → is_new_user_turn (ms ++ (m ∷ [])) ≡ false
unfolding is_new_user_turn
append_keeps ms m h = ap newest_is_human (reverse-append ms (m ∷ [])) ∙ h

place_keeps :
    (i : Option String) (ms : List Message) (m : Message)
    → is_human m ≡ false
    → is_new_user_turn ms ≡ false
    → is_new_user_turn (place i ms m) ≡ false
place_keeps none ms m n h = append_keeps ms m n
place_keeps (some i) ms m n h = replace_keeps m i ms n h

pub add_by_id_keeps :
    (ms new : List Message)
    → is_new_user_turn ms ≡ false
    → All IsNotHuman new
    → is_new_user_turn (add_by_id ms new) ≡ false
add_by_id_keeps ms [] h k = h
add_by_id_keeps ms (m ∷ new) h k =
    add_by_id_keeps (place (id_of m) ms m) new (place_keeps (id_of m) ms m k.0 h) k.1

-- An assistant message without an id is appended.
pub add_new_ai :
    (ms : List Message) (a : AiMessage) → a.id ≡ none → add_by_id ms (ai a ∷ []) ≡ ms ++ (ai a ∷ [])
add_new_ai ms a e = rw e refl
