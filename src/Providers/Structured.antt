-- ===== src/Providers/Structured.antt =====
-- `chat_structured` of backend/service/structured.py. `json.loads`, the stripping of a fence, the
-- schema's validation and the wording of an error are parameters, and the provider's replies are a
-- function of the attempt and the prompt. The waiting between attempts is left out.
use engineering_memory_agent.Common.{
  ℕ, zero, suc, String, Option, none, some, List, [], ◌∷◌, ◌++◌, str_eq, if◌then◌else◌,
}

-- An exception of `chat_json`: `LLMStructuredError`, `CircuitOpenError`, one that counts as a wrong
-- output (`JSONDecodeError`, `ValidationError` or `TypeError`), or another.
pub data CallError : Type 0 where
  structured_error circuit_open_error : CallError
  output_error transient_error : String → CallError

pub data ModelReply : Type 0 where
  replied : String → ModelReply
  fails : CallError → ModelReply

-- What an attempt comes to, for a value of type `V`.
pub data Attempt {ℓ} (V : Type ℓ) : Type ℓ where
  accepted : V → Attempt V
  invalid : String → Attempt V
  propagated : CallError → Attempt V
  transient : Attempt V

-- How a call ends. `exhausted` is the `LLMStructuredError` after the last attempt.
pub data Ending {ℓ} (V : Type ℓ) : Type ℓ where
  value : V → Ending V
  error : CallError → Ending V
  exhausted : Ending V

-- The libraries: `feedback` is `_feedback_message` of an error and the raw output, `validate` gives the
-- error of a value that the schema refuses.
pub record Schema {ℓ} (M : Type 0) (V : Type ℓ) : Type ℓ where
  pub loads : String → Option V
  pub parse_error : String → String
  pub strip_markdown_fence : String → String
  pub validate : V → Option String
  pub feedback : String → Option String → M

-- A value and the error of the schema for it, if there is one.
abbrev pub validated {ℓ} : {V : Type ℓ} → V → Option String → Attempt V
validated v none = accepted v
validated v (some detail) = invalid detail

-- `raw` after a reply: the last text there was.
abbrev pub raw_of : Option String → ModelReply → Option String
raw_of raw (replied s) = some s
raw_of raw (fails e) = raw

module _ {ℓ} {M : Type 0} {V : Type ℓ} where
  -- `_parse_strict_json`
  unfoldable pub parse_strict_json : Schema M V → String → Option V
  parse_strict_json lib raw = elim (lib.loads raw) [
    | some v ↦ some v
    | none ↦
        let stripped = lib.strip_markdown_fence raw in
        if str_eq stripped raw then none else lib.loads stripped
  ]

  abbrev pub checked : Schema M V → String → Option V → Attempt V
  checked lib raw none = invalid (lib.parse_error raw)
  checked lib raw (some v) = validated v (lib.validate v)

  -- The body of the loop, up to its handlers.
  unfoldable pub judge : Schema M V → ModelReply → Attempt V
  unfolding parse_strict_json
  judge lib (replied raw) = checked lib raw (parse_strict_json lib raw)
  judge lib (fails structured_error) = propagated structured_error
  judge lib (fails circuit_open_error) = propagated circuit_open_error
  judge lib (fails (output_error detail)) = invalid detail
  judge lib (fails (transient_error detail)) = transient

  -- What the handlers make of an attempt: the end of the call, or another attempt with its prompt.
  -- The prompts that are sent are kept.
  abbrev pub after_attempt :
      Schema M V
      → List M
      → Option String
      → (List M → Ending V × List (List M))
      → Attempt V
      → Ending V × List (List M)
  after_attempt lib prompt raw again (accepted v) = (value v, prompt ∷ [])
  after_attempt lib prompt raw again (invalid detail) =
      let (end, sent) = again (prompt ++ (lib.feedback detail raw ∷ [])) in (end, prompt ∷ sent)
  after_attempt lib prompt raw again (propagated e) = (error e, prompt ∷ [])
  after_attempt lib prompt raw again transient =
      let (end, sent) = again prompt in (end, prompt ∷ sent)

  -- The loop, with the attempts left: how it ends, and the prompts it sends.
  unfoldable pub attempt_loop :
      Schema M V → (ℕ → List M → ModelReply) → ℕ → List M → Option String → Ending V × List (List M)
  unfolding judge
  attempt_loop lib ask zero prompt raw = (exhausted, [])
  attempt_loop lib ask (suc left) prompt raw =
      let reply = ask left prompt in
      let last = raw_of raw reply in
      after_attempt lib prompt last (λ next. attempt_loop lib ask left next last) (judge lib reply)

  -- `chat_structured`
  unfoldable pub chat_structured :
      Schema M V → (ℕ → List M → ModelReply) → ℕ → List M → Ending V × List (List M)
  unfolding attempt_loop
  chat_structured lib ask attempts messages = attempt_loop lib ask attempts messages none
