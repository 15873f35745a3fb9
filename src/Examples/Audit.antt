-- ===== src/Examples/Audit.antt =====
-- The timeline of audit at concrete inputs.
use auspex.Prelude.{◌≡◌, refl, true, none, [], ◌∷◌, any, concat, to_decimal}
use auspex.Audit.Entry.{TranscriptData, said, thinking}
use auspex.Audit.Store.{append_transcript_snapshot, empty_timeline}
use auspex.Audit.Growth.{Grown, IsConsistent, has_block}
use auspex.Audit.Snapshot.{TurnsHold, append_transcript_snapshot_lem}

abbrev two_turns : TranscriptData
two_turns = record {
  turns =
      record {
        number = 1;
        user_prompt = none;
        blocks =
            thinking (record { text = "hm"; collapsed = true })
            ∷ said (record { text = "yes"; origin = none; notice_kind = none })
            ∷ [];
      }
      ∷ record {
        number = 2;
        user_prompt = none;
        blocks = said (record { text = "done"; origin = none; notice_kind = none }) ∷ [];
      }
      ∷ [];
  active_turn = none;
  context_tokens = none;
}

appends_three : (append_transcript_snapshot "local" two_turns empty_timeline).0 ≡ 3
unfolding append_transcript_snapshot concat to_decimal
appends_three = refl

empty_timeline-IsConsistent : IsConsistent empty_timeline
empty_timeline-IsConsistent = record { seen = λ id. refl; distinct = tt }

append_transcript_snapshot_lem_example :
    let after = append_transcript_snapshot "local" two_turns empty_timeline in
    Grown after.0 empty_timeline after.1
    × IsConsistent after.1
    × TurnsHold (λ id. any (has_block id) after.1.entries) "local" two_turns.turns
    × (append_transcript_snapshot "local" two_turns after.1 ≡ (0, after.1))
append_transcript_snapshot_lem_example =
    append_transcript_snapshot_lem "local" two_turns empty_timeline empty_timeline-IsConsistent
