-- ===== src/Agent/Conflict.antt =====
-- `check_conflict_node` of backend/agent/nodes.py. What the human answers is an argument; the call of
-- `resolve_conflict` of backend/service/memory.py is a parameter here, none where it raises.
use Prim.Native.String.{◌++◌ as ◌<>◌}
use mathlib.Core.List.{reverse}
use engineering_memory_agent.Common.{
  String, Option, none, some, List, [], ◌∷◌, str_eq, if◌then◌else◌,
}
use engineering_memory_agent.Agent.Message.{
  Block, MessageContent, ToolMessage, Message, system, human, ai, tool, other, str_content,
}
use engineering_memory_agent.Agent.Envelope.{
  Json, Fields, text, object, array, scalar, no_fields, lookup,
}
use engineering_memory_agent.Agent.Turn.{write_memory_tool}

-- `json.loads`, `str` of a JSON value that is not a text, `str` of a list of blocks; and the service:
-- the id in its answer, if there is one.
pub record ConflictNode : Type 0 where
  pub loads : String → Option Json
  pub str : Json → String
  pub repr : List Block → String
  pub resolve : String → String → Fields → Option (Option String)

-- What the node does: it goes on, replaces the conflict by a note, or raises because the result is
-- JSON but no object.
pub data ConflictCheck : Type 0 where
  goes_on : ConflictCheck
  noted : ToolMessage → ConflictCheck
  raised : ConflictCheck

-- The newest result of the write tool in this turn, over the messages from the newest on.
unfoldable pub newest_write : List Message → Option ToolMessage
newest_write [] = none
newest_write (m ∷ ms) =
    let rest = newest_write ms in
    elim m [
      | system _ ↦ rest
      | human _ ↦ none
      | ai _ ↦ rest
      | tool t ↦ if str_eq t.name write_memory_tool then some t else rest
      | other _ ↦ rest
    ]

abbrev pub text_or : (Json → String) → String → Option Json → String
text_or str default none = default
text_or str default (some (text s)) = s
text_or str default (some (object fs)) = str (object fs)
text_or str default (some (array vs)) = str (array vs)
text_or str default (some (scalar s)) = s

abbrev pub fields_or_none : Option Json → Fields
fields_or_none none = no_fields
fields_or_none (some (text s)) = no_fields
fields_or_none (some (object fs)) = fs
fields_or_none (some (array vs)) = no_fields
fields_or_none (some (scalar s)) = no_fields

-- `_RESOLUTION_LABELS.get(resolution, resolution)`
unfoldable pub action_label : String → String
action_label r =
    if str_eq r "keep_existing"
    then "kept the existing memory"
    else if str_eq r "overwrite"
    then "overwrote the existing memory with the new one"
    else if str_eq r "merge"
    then "merged both memories together"
    else if str_eq r "keep_both"
    then "kept both memories"
    else r

-- The id that the note names.
abbrev pub noted_id : String → Option (Option String) → String
noted_id existing none = existing
noted_id existing (some none) = "?"
noted_id existing (some (some i)) = i

unfoldable pub resolution_note : ConflictNode → ToolMessage → Fields → String → ToolMessage
unfolding action_label
resolution_note node m result resolution =
    let existing = text_or node.str "" (lookup "existing_id" result) in
    let outcome = node.resolve resolution existing (fields_or_none (lookup "_deferred" result)) in
    record m {
      content = MessageContent.text (
          "Conflict resolved — "
          <> action_label resolution
          <> ". Memory id: "
          <> noted_id existing outcome
          <> ".");
      name = write_memory_tool;
      conflict_resolution = some resolution;
    }

abbrev pub settle_json : ConflictNode → ToolMessage → Option Json → String → ConflictCheck
settle_json node m none resolution = goes_on
settle_json node m (some (text s)) resolution = raised
settle_json node m (some (array vs)) resolution = raised
settle_json node m (some (scalar s)) resolution = raised
settle_json node m (some (object fs)) resolution =
    if str_eq (text_or node.str "" (lookup "action" fs)) "conflict"
    then noted (resolution_note node m fs resolution)
    else goes_on

-- The newest result of the write tool, if there is one, with the human's resolution.
abbrev pub settle_newest : ConflictNode → String → Option ToolMessage → ConflictCheck
settle_newest node resolution none = goes_on
settle_newest node resolution (some m) =
    settle_json node m (node.loads (str_content node.repr m.content)) resolution

abbrev pub resolution_or_default : Option String → String
resolution_or_default none = "keep_existing"
resolution_or_default (some r) = r

-- `check_conflict_node`. `resolution` is the human's, or keep_existing where there is none.
unfoldable pub check_conflict : ConflictNode → List Message → Option String → ConflictCheck
unfolding newest_write resolution_note
check_conflict node messages resolution =
    settle_newest node (resolution_or_default resolution) (newest_write (reverse messages))
