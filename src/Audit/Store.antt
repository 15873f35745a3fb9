-- ===== src/Audit/Store.antt =====
-- The store of the timeline: AuditTimelineStore of auspex-core/src/audit_timeline.rs. The set
-- `seen_ids` is the list of its members, of which only membership is ever read.
use auspex.Prelude.{
  ℕ, suc, ◌+◌, String, Bool, true, false, List, [], ◌∷◌, ◌++◌, map, any, str_eq, if◌then◌else◌,
}
use auspex.Audit.Entry.{AuditEntry, TranscriptData, Turn, TurnBlock, from_block}

pub record AuditTimelineStore : Type 0 where
  pub schema_version : ℕ
  pub entries : List AuditEntry
  pub seen_ids : List String

abbrev pub empty_timeline : AuditTimelineStore
empty_timeline = record { schema_version = 1; entries = []; seen_ids = [] }

abbrev pub is_seen : String → List String → Bool
is_seen id ids = any (str_eq id) ids

unfoldable pub append_entry : AuditEntry → AuditTimelineStore → Bool × AuditTimelineStore
append_entry entry store = if is_seen entry.block_id store.seen_ids then (false, store) else (
  true,
  record store {
    entries = store.entries ++ entry ∷ [];
    seen_ids = entry.block_id ∷ store.seen_ids;
  },
)

abbrev pub count_appended : Bool → ℕ → ℕ
count_appended true n = suc n
count_appended false n = n

-- The inner loop of `append_transcript_snapshot`, from the block with the index `i`.
unfoldable pub append_blocks :
    String → ℕ → ℕ → List TurnBlock → AuditTimelineStore → ℕ × AuditTimelineStore
unfolding append_entry from_block
append_blocks key turn i [] store = (0, store)
append_blocks key turn i (block ∷ blocks) store =
    let step = append_entry (from_block key turn i block) store in
    let rest = append_blocks key turn (suc i) blocks step.1 in
    (count_appended step.0 rest.0, rest.1)

-- The outer loop
unfoldable pub append_turns : String → List Turn → AuditTimelineStore → ℕ × AuditTimelineStore
unfolding append_blocks
append_turns key [] store = (0, store)
append_turns key (turn ∷ turns) store =
    let step = append_blocks key turn.number 0 turn.blocks store in
    let rest = append_turns key turns step.1 in (step.0 + rest.0, rest.1)

unfoldable pub append_transcript_snapshot :
    String → TranscriptData → AuditTimelineStore → ℕ × AuditTimelineStore
unfolding append_turns
append_transcript_snapshot key transcript store = append_turns key transcript.turns store

unfoldable pub rebuild_seen_ids : AuditTimelineStore → AuditTimelineStore
rebuild_seen_ids store = record store { seen_ids = map (λ e. e.block_id) store.entries }
