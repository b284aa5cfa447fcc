-- ===== src/Providers/Attempts.antt =====
-- The attempts of `chat_structured` in backend/service/structured.py.
use engineering_memory_agent.Common.{
  ℕ, zero, suc, ◌≤◌, ◌≡◌, ◌⊎◌, refl, sym, ap, ◌∙◌, inl, inr, arith, String, Option, none, some,
  List, [], ◌∷◌, ◌++◌, append-nil, append_assoc, length, All,
}
use engineering_memory_agent.Providers.Structured.{
  structured_error, circuit_open_error, output_error, transient_error, ModelReply, replied, fails,
  Attempt, accepted, invalid, propagated, transient, Ending, value, error, exhausted, Schema,
  validated, checked, judge, parse_strict_json, raw_of, after_attempt, attempt_loop,
  chat_structured,
}

module _ {M V : Type 0} (lib : Schema M V) (messages : List M) where
  -- The prompt starts with the caller's messages.
  abbrev pub Extends : List M → Type 0
  Extends p = (extra : List M) × (p ≡ messages ++ extra)

  -- How a call may end with a number of attempts: with a value that the schema accepts, with an open
  -- breaker or a structured error of the provider, or with all attempts spent.
  abbrev pub EndsWell : ℕ → List (List M) → Ending V → Type 0
  EndsWell attempts sent (value v) = lib.validate v ≡ none
  EndsWell attempts sent (error e) = (e ≡ circuit_open_error) ⊎ (e ≡ structured_error)
  EndsWell attempts sent exhausted = length sent ≡ attempts

  pub record IsOrderly (attempts : ℕ) (r : Ending V × List (List M)) : Type 0 where
    pub ends_well : EndsWell attempts r.1 r.0
    pub few : length r.1 ≤ attempts
    pub extended : All Extends r.1

  -- What an attempt may be.
  abbrev IsPlausible : Attempt V → Type 0
  IsPlausible (accepted v) = lib.validate v ≡ none
  IsPlausible (invalid detail) = Unit
  IsPlausible (propagated e) = (e ≡ circuit_open_error) ⊎ (e ≡ structured_error)
  IsPlausible transient = Unit

  validated-IsPlausible :
      (v : V) (o : Option String) → lib.validate v ≡ o → IsPlausible (validated v o)
  validated-IsPlausible v none e = e
  validated-IsPlausible v (some detail) e = tt

  checked-IsPlausible : (raw : String) (o : Option V) → IsPlausible (checked lib raw o)
  checked-IsPlausible raw none = tt
  checked-IsPlausible raw (some v) = validated-IsPlausible v (lib.validate v) refl

  judge-IsPlausible : (r : ModelReply) → IsPlausible (judge lib r)
  unfolding judge
  judge-IsPlausible (replied raw) = checked-IsPlausible raw (parse_strict_json lib raw)
  judge-IsPlausible (fails structured_error) = inr refl
  judge-IsPlausible (fails circuit_open_error) = inl refl
  judge-IsPlausible (fails (output_error detail)) = tt
  judge-IsPlausible (fails (transient_error detail)) = tt

  longer_ends :
      (left : ℕ) (p : List M) (sent : List (List M)) (end : Ending V)
      → EndsWell left sent end
      → EndsWell (suc left) (p ∷ sent) end
  longer_ends left p sent (value v) h = h
  longer_ends left p sent (error e) h = h
  longer_ends left p sent exhausted h = ap suc h

  again-IsOrderly :
      (left : ℕ) (p : List M) (r : Ending V × List (List M))
      → Extends p
      → IsOrderly left r
      → IsOrderly (suc left) (r.0, p ∷ r.1)
  again-IsOrderly left p r h k = record {
    ends_well = longer_ends left p r.1 r.0 k.ends_well;
    few = omega (arith, k.few);
    extended = (h, k.extended);
  }

  Extends-append : (p : List M) (m : M) → Extends p → Extends (p ++ (m ∷ []))
  Extends-append p m (extra, e) =
      (extra ++ (m ∷ []), ap (λ l. l ++ (m ∷ [])) e ∙ append_assoc messages extra (m ∷ []))

  attempt-IsOrderly :
      (left : ℕ) (p : List M) (raw : Option String) (again : List M → Ending V × List (List M))
      (a : Attempt V)
      → Extends p
      → ((next : List M) → Extends next → IsOrderly left (again next))
      → IsPlausible a
      → IsOrderly (suc left) (after_attempt lib p raw again a)
  attempt-IsOrderly left p raw again (accepted v) h k good = record {
    ends_well = good;
    few = omega arith;
    extended = (h, tt);
  }
  attempt-IsOrderly left p raw again (invalid detail) h k good =
      let m = lib.feedback detail raw in
      again-IsOrderly left p (again (p ++ (m ∷ []))) h (k (p ++ (m ∷ [])) (Extends-append p m h))
  attempt-IsOrderly left p raw again (propagated e) h k good = record {
    ends_well = good;
    few = omega arith;
    extended = (h, tt);
  }
  attempt-IsOrderly left p raw again transient h k good = again-IsOrderly left p (again p) h (k p h)

  attempt_loop-IsOrderly :
      (ask : ℕ → List M → ModelReply) (left : ℕ) (p : List M) (raw : Option String)
      → Extends p
      → IsOrderly left (attempt_loop lib ask left p raw)
  unfolding attempt_loop
  attempt_loop-IsOrderly ask zero p raw h = record {
    ends_well = refl;
    few = omega arith;
    extended = tt;
  }
  attempt_loop-IsOrderly ask (suc left) p raw h =
      let reply = ask left p in
      let last = raw_of raw reply in
      attempt-IsOrderly left p last (λ next. attempt_loop lib ask left next last) (judge lib reply)
        h (λ next k. attempt_loop-IsOrderly ask left next last k) (judge-IsPlausible reply)

  -- A structured call ends, whatever the provider replies, after at most the given number of prompts,
  -- each of which starts with the caller's messages. It returns a value only if the schema accepts it,
  -- ends early otherwise only with an open breaker or a structured error of the provider, and else has
  -- spent all attempts.
  pub chat_structured-IsOrderly :
      (ask : ℕ → List M → ModelReply) (attempts : ℕ)
      → IsOrderly attempts (chat_structured lib ask attempts messages)
  unfolding chat_structured
  chat_structured-IsOrderly ask attempts =
      attempt_loop-IsOrderly ask attempts messages none ([], sym (append-nil messages))
