-- ===== src/Agent/AutoMemory.antt =====
-- The automatic capture of memories in backend/agent/nodes.py: `_maybe_auto_memory` with its gates. The
-- judging model, the extraction and `write_memory` are parameters, none where they raise; `S` is the
-- state of the memory store.
use engineering_memory_agent.Common.{
  ℕ, ◌-◌, Bool, true, false, not, ◌&&◌, ◌||◌, String, Option, none, some, List, str_eq, ltb, leb,
  if◌then◌else◌,
}
use engineering_memory_agent.Common.Eq.{string_eq}
use engineering_memory_agent.Common.Dict.{Dict, get, put}
use engineering_memory_agent.Common.Text.{strip, chars, take_chars}
use engineering_memory_agent.Agent.Message.{Block, Message}
use engineering_memory_agent.Agent.Envelope.{Json}
use engineering_memory_agent.Agent.Turn.{last_human_content, write_succeeded_this_turn}

abbrev pub auto_memory_min_summary_len : ℕ
auto_memory_min_summary_len = 15

abbrev pub auto_memory_min_content_len : ℕ
auto_memory_min_content_len = 12

-- What the check of an extraction reads of it.
pub record ExtractedMemory : Type 0 where
  pub summary : String
  pub has_entities : Bool

-- The settings, the texts' libraries, and the models. `interval` is `auto_memory_min_interval` in ticks
-- of the clock.
pub record Capture {ℓ} (S : Type ℓ) : Type ℓ where
  pub auto_memory_enabled : Bool
  pub memory_enabled : Bool
  pub interval : ℕ
  pub repr : List Block → String
  pub loads : String → Option Json
  pub gate_verdict : String → Option Bool
  pub extract_memory : String → Option ExtractedMemory
  pub write_memory : String → S → Bool × S

-- `_auto_memory_last_write` and the store.
pub record CaptureState {ℓ} (S : Type ℓ) : Type ℓ where
  pub last_write : Dict String ℕ
  pub store : S

-- `_auto_memory_throttled`
unfoldable pub auto_memory_throttled : ℕ → ℕ → String → Dict String ℕ → Bool
auto_memory_throttled interval now thread_id writes = elim (get thread_id writes) [
  | none ↦ false
  | some last ↦ ltb (now - last) interval
]

module _ {ℓ} {S : Type ℓ} where
  -- `_llm_gate_worthy`: a model that cannot be reached lets the message through.
  unfoldable pub llm_gate_worthy : Capture S → String → Bool
  llm_gate_worthy c content = elim (c.gate_verdict content) [ none ↦ true | some worthy ↦ worthy ]

-- `_has_substance`
unfoldable pub has_substance : ExtractedMemory → String → Bool
has_substance x source =
    let summary = strip x.summary in
    if not (str_eq source "")
      && not (str_eq summary "")
      && str_eq summary (take_chars 200 (strip source))
      && not x.has_entities
    then false
    else leb auto_memory_min_summary_len (chars summary) || x.has_entities

abbrev pub thread_or_default : String → String
thread_or_default thread = if str_eq thread "" then "_" else thread

abbrev pub is_substantial : Option ExtractedMemory → String → Bool
is_substantial none content = false
is_substantial (some x) content = has_substance x content

module _ {ℓ} {S : Type ℓ} where
  -- The write at the end; where it raises, the capture is not noted.
  unfoldable pub capture_write : Capture S → ℕ → String → String → CaptureState S → CaptureState S
  capture_write c now thread_id content s =
      let (written, store) = c.write_memory content s.store in
      if written
      then record { last_write = put thread_id now s.last_write; store = store }
      else record s { store = store }

  -- Whether the conditions before the extraction hold.
  unfoldable pub is_candidate : Capture S → ℕ → String → List Message → CaptureState S → Bool
  unfolding last_human_content write_succeeded_this_turn auto_memory_throttled llm_gate_worthy
  is_candidate c now thread_id messages s =
      let content = last_human_content c.repr messages in
      c.auto_memory_enabled
      && c.memory_enabled
      && not (str_eq content "")
      && not (write_succeeded_this_turn c.repr c.loads messages)
      && leb auto_memory_min_content_len (chars content)
      && not (auto_memory_throttled c.interval now thread_id s.last_write)
      && llm_gate_worthy c content

  -- `_maybe_auto_memory`
  unfoldable pub maybe_auto_memory :
      Capture S → ℕ → String → List Message → CaptureState S → CaptureState S
  unfolding is_candidate capture_write last_human_content
  maybe_auto_memory c now thread messages s =
      let thread_id = thread_or_default thread in
      let content = last_human_content c.repr messages in
      if is_candidate c now thread_id messages s
        && is_substantial (c.extract_memory content) content
      then capture_write c now thread_id content s
      else s
