-- ===== src/Agent/Envelope.antt =====
-- backend/agent/tool_envelope.py: the JSON envelope of a tool's result. `json.loads`, `json.dumps` and
-- Python's `str` of a value that is not a text are parameters.
use Prim.Native.String.{◌++◌ as ◌<>◌}
use engineering_memory_agent.Common.{
  ℕ, ◌+◌, ◌≤◌, ◌≡◌, refl, ap, ◌∙◌, inl, inr, arith, String, Option, none, some, str_eq, leb,
  if◌then◌else◌, Bool-cases,
}
use engineering_memory_agent.Common.Text.{
  chars, take_chars, chars-take_chars, chars-append, take_chars-append,
}

-- A JSON value. Numbers, Booleans and null stand by their text.
mutual
  pub data Json : Type 0 where
    text : String → Json
    object : Fields → Json
    array : Items → Json
    scalar : String → Json

  pub data Fields : Type 0 where
    no_fields : Fields
    field : String → Json → Fields → Fields

  pub data Items : Type 0 where
    no_items : Items
    item : Json → Items → Items

-- `dict.get`; JSON objects as `json.loads` gives them have each key once.
unfoldable pub lookup : String → Fields → Option Json
lookup k no_fields = none
lookup k (field j v fs) = let rest = lookup k fs in if str_eq j k then some v else rest

abbrev pub max_tool_content_chars : ℕ
max_tool_content_chars = 800

marker_chars : chars "\n…[truncated]" ≡ 13
unfolding chars
marker_chars = refl

-- The object that is dumped. `sources` is an empty array where there are none.
abbrev pub envelope : String → Items → Json
envelope display sources =
    object (field "display" (text display) (field "sources" (array sources) no_fields))

unfoldable pub build_tool_envelope : (Json → String) → String → Items → String
build_tool_envelope dumps display sources = dumps (envelope display sources)

unfoldable pub parse_tool_envelope : (String → Option Json) → String → Option Fields
parse_tool_envelope loads raw = elim (loads raw) [
  | none ↦ none
  | some v ↦ elim v [
    | text _ ↦ none
    | object fs ↦ elim (lookup "display" fs) [ none ↦ none | some _ ↦ some fs ]
    | array _ ↦ none
    | scalar _ ↦ none
  ]
]

-- Python's `str` of a value, with that of the values that are no text as a parameter.
abbrev pub str_json : (Json → String) → Json → String
str_json str (text s) = s
str_json str (object fs) = str (object fs)
str_json str (array vs) = str (array vs)
str_json str (scalar s) = s

module _ (loads : String → Option Json) (str : Json → String) where
  unfoldable pub envelope_display : String → String
  unfolding parse_tool_envelope
  envelope_display raw = elim (parse_tool_envelope loads raw) [
    | none ↦ raw
    | some fs ↦ elim (lookup "display" fs) [ none ↦ raw | some v ↦ str_json str v ]
  ]

  unfoldable pub truncate_tool_content : ℕ → String → String
  unfolding envelope_display
  truncate_tool_content limit raw =
      let display = envelope_display raw in
      if leb (chars display) limit then display else take_chars limit display <> "\n…[truncated]"

  display-build :
      (dumps : Json → String) (display : String) (sources : Items)
      → loads (dumps (envelope display sources)) ≡ some (envelope display sources)
      → envelope_display (build_tool_envelope dumps display sources) ≡ display
  unfolding build_tool_envelope envelope_display parse_tool_envelope lookup
  display-build dumps display sources inverse =
      rw (inverse, envelope_display, parse_tool_envelope) refl

  truncated_bounds :
      (limit : ℕ) (raw : String)
      → (take_chars limit (truncate_tool_content limit raw)
          ≡ take_chars limit (envelope_display raw))
        × (chars (truncate_tool_content limit raw) ≤ limit + 13)
  unfolding truncate_tool_content
  truncated_bounds limit raw =
      let display = envelope_display raw in
      elim (Bool-cases (leb (chars display) limit)) [
        | inl e ↦ rw e (refl, ground (arith, e))
        | inr e ↦
            let cut = take_chars limit display in
            let n = chars-append cut "\n…[truncated]" in
            let m = chars-take_chars limit display in
            let k : chars "\n…[truncated]" ≡ 13 = marker_chars in
            rw e (
              take_chars-append limit display "\n…[truncated]" (ground (arith, e)),
              omega (arith, n, m, k),
            )
      ]

-- The text that a tool wraps into an envelope comes out of it again, and what is resent to the model
-- agrees with it up to the limit and is at most 13 characters longer than the limit, provided that
-- `json.loads` gives back the object that was dumped.
pub envelope_roundtrip :
    (loads : String → Option Json) (dumps : Json → String) (str : Json → String) (limit : ℕ)
    (display : String) (sources : Items)
    → loads (dumps (envelope display sources)) ≡ some (envelope display sources)
    → let raw = build_tool_envelope dumps display sources in
      (envelope_display loads str raw ≡ display)
      × (take_chars limit (truncate_tool_content loads str limit raw) ≡ take_chars limit display)
      × (chars (truncate_tool_content loads str limit raw) ≤ limit + 13)
envelope_roundtrip loads dumps str limit display sources inverse =
    let raw = build_tool_envelope dumps display sources in
    let e = display-build loads str dumps display sources inverse in
    let (same, bound) = truncated_bounds loads str limit raw in
    (e, same ∙ ap (take_chars limit) e, bound)
