-- ===== src/Audit/Entry.antt =====
-- Transcripts (auspex-core/src/fixtures.rs) and the entries that are made of their blocks
-- (AuditEntry of auspex-core/src/audit_timeline.rs).
use auspex.Prelude.{
  ℕ, String, Bool, Option, none, some, List, [], ◌∷◌, ◌++◌, if◌then◌else◌, concat, to_decimal,
  is_empty,
}

pub record TurnBlockText : Type 0 where
  pub text : String
  pub collapsed : Bool

pub data OriginKind : Type 0 where
  dispatcher : OriginKind
  child : OriginKind
  origin_system : OriginKind

pub record BlockOrigin : Type 0 where
  pub kind : OriginKind
  pub label : String

pub record ToolCard : Type 0 where
  pub id : String
  pub name : String
  pub args : String
  pub partial_output : String
  pub result : Option String
  pub is_error : Bool
  pub origin : Option BlockOrigin

pub data SystemNoticeKind : Type 0 where
  generic : SystemNoticeKind
  dispatcher_switch : SystemNoticeKind
  cleave_start : SystemNoticeKind
  cleave_complete : SystemNoticeKind
  child_status : SystemNoticeKind
  failure : SystemNoticeKind

pub record AttributedText : Type 0 where
  pub text : String
  pub origin : Option BlockOrigin
  pub notice_kind : Option SystemNoticeKind

pub data TurnBlock : Type 0 where
  thinking : TurnBlockText → TurnBlock
  said : AttributedText → TurnBlock
  tool : ToolCard → TurnBlock
  system : AttributedText → TurnBlock
  aborted : String → TurnBlock

pub record Turn : Type 0 where
  pub number : ℕ
  pub user_prompt : Option String
  pub blocks : List TurnBlock

pub record TranscriptData : Type 0 where
  pub turns : List Turn
  pub active_turn : Option ℕ
  pub context_tokens : Option ℕ

pub data AuditEntryKind : Type 0 where
  of_thinking : AuditEntryKind
  of_text : AuditEntryKind
  of_tool : AuditEntryKind
  of_system : AuditEntryKind
  of_telemetry : AuditEntryKind
  of_aborted : AuditEntryKind

pub record AuditEntry : Type 0 where
  pub session_key : String
  pub turn_number : ℕ
  pub block_index : ℕ
  pub block_id : String
  pub kind : AuditEntryKind
  pub label : String
  pub content : String

unfoldable pub attributed_label : AttributedText → String → String
attributed_label text fallback = elim text.origin [ some origin ↦ origin.label | none ↦ fallback ]

-- `parts.join("\n\n")`
abbrev join_parts : List String → String
join_parts [] = ""
join_parts (part ∷ []) = part
join_parts (part ∷ next ∷ parts) = concat (part ∷ "\n\n" ∷ join_parts (next ∷ parts) ∷ [])

abbrev part_of : String → String → List String
part_of title text = if is_empty text then [] else concat (title ∷ text ∷ []) ∷ []

abbrev result_part : Option String → List String
result_part none = []
result_part (some result) = concat ("result:\n" ∷ result ∷ []) ∷ []

abbrev parts_or_name : String → List String → String
parts_or_name name [] = name
parts_or_name name (part ∷ parts) = join_parts (part ∷ parts)

unfoldable pub tool_content : ToolCard → String
tool_content card = parts_or_name card.name (
    part_of "args:\n" card.args
    ++ (part_of "partial_output:\n" card.partial_output ++ result_part card.result))

block_kind : TurnBlock → AuditEntryKind
block_kind (thinking _) = of_thinking
block_kind (said _) = of_text
block_kind (tool _) = of_tool
block_kind (system _) = of_system
block_kind (aborted _) = of_aborted

block_label : TurnBlock → String
unfolding attributed_label
block_label (thinking _) = "Thinking"
block_label (said text) = attributed_label text "Message"
block_label (tool card) = concat ("Tool · " ∷ card.name ∷ [])
block_label (system text) = attributed_label text "System"
block_label (aborted _) = "Aborted"

block_content : TurnBlock → String
unfolding tool_content
block_content (thinking t) = t.text
block_content (said text) = text.text
block_content (tool card) = tool_content card
block_content (system text) = text.text
block_content (aborted text) = text

-- The id of a block: `{session_key}:turn-{turn_number}-block-{block_index}`.
unfoldable pub block_id_of : String → ℕ → ℕ → String
block_id_of session_key turn_number block_index =
    concat
      (session_key ∷ ":turn-" ∷ to_decimal turn_number ∷ "-block-" ∷ to_decimal block_index ∷ [])

unfoldable pub from_block : String → ℕ → ℕ → TurnBlock → AuditEntry
unfolding block_kind block_label block_content block_id_of
from_block session_key turn_number block_index block = record {
  session_key = session_key;
  turn_number = turn_number;
  block_index = block_index;
  block_id = block_id_of session_key turn_number block_index;
  kind = block_kind block;
  label = block_label block;
  content = block_content block;
}

-- `AuditEntry::telemetry`
unfoldable pub telemetry_entry : String → String → String → String → AuditEntry
telemetry_entry session_key telemetry_key label content = record {
  session_key = session_key;
  turn_number = 0;
  block_index = 0;
  block_id = concat (session_key ∷ ":telemetry:" ∷ telemetry_key ∷ []);
  kind = of_telemetry;
  label = label;
  content = content;
}
