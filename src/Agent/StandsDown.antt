-- ===== src/Agent/StandsDown.antt =====
-- When the automatic capture of backend/agent/nodes.py stands down.
use mathlib.Core.List.{reverse, reverse-append}
use engineering_memory_agent.Common.{
  ℕ, ◌≡◌, refl, sym, ap, ◌∙◌, subst, inl, inr, Bool, true, false, ◌&&◌, ◌||◌, String, Option, none,
  some, List, [], ◌∷◌, ◌++◌, any, All, str_eq, Bool-cases,
}
use engineering_memory_agent.Agent.Message.{Block, Message, ToolMessage, tool, str_content}
use engineering_memory_agent.Agent.Envelope.{Json, text, object, array, scalar, lookup}
use engineering_memory_agent.Agent.Turn.{
  until_human, this_turn, write_succeeded_this_turn, is_settled_write, write_memory_tool,
}
use engineering_memory_agent.Agent.Conflict.{
  ConflictNode, goes_on, noted, raised, newest_write, resolution_note, settle_json, settle_newest,
  text_or, check_conflict,
}
use engineering_memory_agent.Agent.AutoMemory.{
  Capture, CaptureState, is_candidate, maybe_auto_memory, thread_or_default,
}
use engineering_memory_agent.Agent.Ends.{IsNotHuman}

any-append {ℓ} :
    {A : Type ℓ} (p : A → Bool) (xs ys : List A) → any p (xs ++ ys) ≡ (any p xs || any p ys)
any-append p [] ys = refl
any-append p (x ∷ xs) ys = elim (Bool-cases (p x)) [
  | inl e ↦ rw e refl
  | inr e ↦ rw e (any-append p xs ys)
]

any-mid {ℓ} :
    {A : Type ℓ} (p : A → Bool) (xs : List A) (y : A) (zs : List A)
    → p y ≡ true
    → any p (xs ++ (y ∷ zs)) ≡ true
any-mid p [] y zs h = rw h refl
any-mid p (x ∷ xs) y zs h = elim (Bool-cases (p x)) [
  | inl e ↦ rw e refl
  | inr e ↦ rw e (any-mid p xs y zs h)
]

-- Messages that are not the user's stand before what the search goes on to.
until_past :
    (front rest : List Message)
    → All IsNotHuman front
    → until_human (front ++ rest) ≡ front ++ until_human rest
unfolding until_human
until_past [] rest h = refl
until_past (m ∷ front) rest h = rw h.0 (ap (λ l. m ∷ l) (until_past front rest h.1))

All-append_back :
    (xs : List Message) (m : Message)
    → All IsNotHuman xs
    → IsNotHuman m
    → All IsNotHuman (xs ++ (m ∷ []))
All-append_back [] m h k = (k, tt)
All-append_back (x ∷ xs) m h k = (h.0, All-append_back xs m h.1 k)

All-reverse : (xs : List Message) → All IsNotHuman xs → All IsNotHuman (reverse xs)
All-reverse [] h = tt
All-reverse (x ∷ xs) h =
    subst (All IsNotHuman) (sym (reverse-append (x ∷ []) xs))
      (All-append_back (reverse xs) x (All-reverse xs h.1) h.0)

-- A message behind which the user says nothing is in this turn.
in_this_turn :
    (p : Message → Bool) (before : List Message) (m : Message) (after : List Message)
    → IsNotHuman m
    → All IsNotHuman after
    → p m ≡ true
    → any p (this_turn (before ++ (m ∷ after))) ≡ true
unfolding this_turn
in_this_turn p before m after h k e =
    let front = reverse after ++ (m ∷ []) in
    let left = until_human (reverse before) in
    let turned : reverse (before ++ (m ∷ after)) ≡ front ++ reverse before =
      reverse-append before (m ∷ after)
      ∙ ap (λ l. l ++ reverse before) (reverse-append (m ∷ []) after) in
    let cut =
      ap until_human turned
      ∙ until_past front (reverse before)
          (All-append_back (reverse after) m (All-reverse after k) h) in
    let back : reverse (front ++ left) ≡ reverse left ++ (m ∷ reverse (reverse after)) =
      reverse-append front left
      ∙ ap (λ l. reverse left ++ l) (reverse-append (reverse after) (m ∷ [])) in
    ap (λ l. any p (reverse l)) cut
    ∙ ap (any p) back
    ∙ any-mid p (reverse left) m (reverse (reverse after)) e

noted_inj : {a b : ToolMessage} → noted a ≡ noted b → a ≡ b
noted_inj {a = a} e = ap (λ o. elim o [ goes_on ↦ a | noted x ↦ x | raised ↦ a ]) e

settle_json_note :
    (node : ConflictNode) (m t : ToolMessage) (v : Option Json) (r : String)
    → settle_json node m v r ≡ noted t
    → (t.name ≡ write_memory_tool) × (t.conflict_resolution ≡ some r)
unfolding resolution_note
settle_json_note node m t none r e = absurd (cc e)
settle_json_note node m t (some (text s)) r e = absurd (cc e)
settle_json_note node m t (some (array vs)) r e = absurd (cc e)
settle_json_note node m t (some (scalar s)) r e = absurd (cc e)
settle_json_note node m t (some (object fs)) r e =
    elim (Bool-cases (str_eq (text_or node.str "" (lookup "action" fs)) "conflict")) [
      | inl f ↦
          let same : resolution_note node m fs r ≡ t = noted_inj (cc (rw f at e)) in
          (
            ap (λ (x : ToolMessage). x.name) (sym same),
            ap (λ (x : ToolMessage). x.conflict_resolution) (sym same),
          )
      | inr f ↦ absurd (cc (rw f at e))
    ]

settle_note :
    (node : ConflictNode) (r : String) (o : Option ToolMessage) (t : ToolMessage)
    → settle_newest node r o ≡ noted t
    → (t.name ≡ write_memory_tool) × (t.conflict_resolution ≡ some r)
settle_note node r none t e = absurd (cc e)
settle_note node r (some m) t e =
    settle_json_note node m t (node.loads (str_content node.repr m.content)) r e

settling_write :
    (repr : List Block → String) (loads : String → Option Json) (t : ToolMessage) (r : String)
    → t.name ≡ write_memory_tool
    → t.conflict_resolution ≡ some r
    → str_eq r "" ≡ false
    → is_settled_write repr loads (tool t) ≡ true
settling_write repr loads t r n c e = rw (n, c) (rw e refl)

shut : (a b c d : Bool) → (a && false && b && c && d) ≡ false
shut true b c d = refl
shut false b c d = refl

module _ {S : Type 0} (c : Capture S) (now : ℕ) (thread_id : String) (messages : List Message)
    (s : CaptureState S) where
  settled_is_no_candidate :
      write_succeeded_this_turn c.repr c.loads messages ≡ true
      → is_candidate c now thread_id messages s ≡ false
  unfolding is_candidate
  settled_is_no_candidate e = rw e (shut _ _ _ _)

-- Once the human has resolved the conflict of a write, with a resolution that is not blank, nothing is
-- captured automatically in that turn: neither the store nor the times of captures change, whatever
-- messages came before, whatever messages that are not the user's follow, and whatever the models say.
pub resolved_stands_down :
    {S : Type 0} (node : ConflictNode) (scanned : List Message) (r : String) (note : ToolMessage)
    (c : Capture S) (now : ℕ) (thread : String) (before after : List Message) (s : CaptureState S)
    → check_conflict node scanned (some r) ≡ noted note
    → str_eq r "" ≡ false
    → All IsNotHuman after
    → maybe_auto_memory c now thread (before ++ (tool note ∷ after)) s ≡ s
unfolding check_conflict maybe_auto_memory write_succeeded_this_turn
resolved_stands_down node scanned r note c now thread before after s e blank h =
    let (name, marked) = settle_note node r (newest_write (reverse scanned)) note e in
    let settled =
      in_this_turn (is_settled_write c.repr c.loads) before (tool note) after refl h
        (settling_write c.repr c.loads note r name marked blank) in
    rw
      (settled_is_no_candidate c now (thread_or_default thread) (before ++ (tool note ∷ after)) s
        settled)
      refl
