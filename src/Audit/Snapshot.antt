-- ===== src/Audit/Snapshot.antt =====
-- What a snapshot adds to the timeline, and that it adds it once.
use auspex.Prelude.{
  ℕ, suc, ◌+◌, ◌≡◌, refl, sym, ◌∙◌, subst, String, Bool, true, false, List, [], ◌∷◌, any, arith,
}
use auspex.Audit.Entry.{TranscriptData, Turn, TurnBlock, block_id_of, from_block}
use auspex.Audit.Store.{
  AuditTimelineStore, append_blocks, append_entry, append_transcript_snapshot, append_turns,
  count_appended, is_seen,
}
use auspex.Audit.Growth.{
  Grown, Grown-refl, Grown-trans, IsConsistent, append_entry-Grown, has_block,
}

-- Every block of a turn, from the index `i`, has an id that satisfies `p`.
abbrev pub BlocksHold : (String → Bool) → String → ℕ → ℕ → List TurnBlock → Type 0
BlocksHold p key turn i [] = Unit
BlocksHold p key turn i (block ∷ blocks) =
    (p (block_id_of key turn i) ≡ true) × BlocksHold p key turn (suc i) blocks

abbrev pub TurnsHold : (String → Bool) → String → List Turn → Type 0
TurnsHold p key [] = Unit
TurnsHold p key (turn ∷ turns) = BlocksHold p key turn.number 0 turn.blocks × TurnsHold p key turns

count_appended-add : (b : Bool) (n : ℕ) → count_appended b 0 + n ≡ count_appended b n
count_appended-add true n = omega arith
count_appended-add false n = omega arith

BlocksHold-map :
    (p q : String → Bool)
    → ((id : String) → p id ≡ true → q id ≡ true)
    → (key : String) (turn i : ℕ) (blocks : List TurnBlock) → BlocksHold p key turn i blocks
    → BlocksHold q key turn i blocks
BlocksHold-map p q f key turn i [] h = tt
BlocksHold-map p q f key turn i (block ∷ blocks) h =
    (f (block_id_of key turn i) h.0, BlocksHold-map p q f key turn (suc i) blocks h.1)

TurnsHold-map :
    (p q : String → Bool)
    → ((id : String) → p id ≡ true → q id ≡ true)
    → (key : String) (turns : List Turn) → TurnsHold p key turns
    → TurnsHold q key turns
TurnsHold-map p q f key [] h = tt
TurnsHold-map p q f key (turn ∷ turns) h =
    (BlocksHold-map p q f key turn.number 0 turn.blocks h.0, TurnsHold-map p q f key turns h.1)

append_blocks-Grown :
    (key : String) (turn i : ℕ) (blocks : List TurnBlock) (store : AuditTimelineStore)
    → let after = append_blocks key turn i blocks store in
      Grown after.0 store after.1 × BlocksHold (λ id. is_seen id after.1.seen_ids) key turn i blocks
unfolding append_blocks from_block
append_blocks-Grown key turn i [] store = (Grown-refl store, tt)
append_blocks-Grown key turn i (block ∷ blocks) store =
    let entry = from_block key turn i block in
    let one = append_entry-Grown entry store in
    let step = append_entry entry store in
    let rest = append_blocks-Grown key turn (suc i) blocks step.1 in
    let after = append_blocks key turn (suc i) blocks step.1 in
    (
      subst (λ n. Grown n store after.1) (count_appended-add step.0 after.0)
          (Grown-trans store step.1 after.1 one.0 rest.0),
      (rest.0.keeps (block_id_of key turn i) one.1, rest.1),
    )

append_turns-Grown :
    (key : String) (turns : List Turn) (store : AuditTimelineStore)
    → let after = append_turns key turns store in
      Grown after.0 store after.1 × TurnsHold (λ id. is_seen id after.1.seen_ids) key turns
unfolding append_turns
append_turns-Grown key [] store = (Grown-refl store, tt)
append_turns-Grown key (turn ∷ turns) store =
    let step = append_blocks key turn.number 0 turn.blocks store in
    let first = append_blocks-Grown key turn.number 0 turn.blocks store in
    let rest = append_turns-Grown key turns step.1 in
    let after = append_turns key turns step.1 in
    (
      Grown-trans store step.1 after.1 first.0 rest.0,
      (
        BlocksHold-map (λ id. is_seen id step.1.seen_ids) (λ id. is_seen id after.1.seen_ids)
            rest.0.keeps key turn.number 0 turn.blocks first.1,
        rest.1,
      ),
    )

append_blocks-seen :
    (key : String) (turn i : ℕ) (blocks : List TurnBlock) (store : AuditTimelineStore)
    → BlocksHold (λ id. is_seen id store.seen_ids) key turn i blocks
    → append_blocks key turn i blocks store ≡ (0, store)
unfolding append_blocks append_entry from_block
append_blocks-seen key turn i [] store h = refl
append_blocks-seen key turn i (block ∷ blocks) store h =
    rw (h.0, append_blocks-seen key turn (suc i) blocks store h.1) refl

append_turns-seen :
    (key : String) (turns : List Turn) (store : AuditTimelineStore)
    → TurnsHold (λ id. is_seen id store.seen_ids) key turns
    → append_turns key turns store ≡ (0, store)
unfolding append_turns
append_turns-seen key [] store h = refl
append_turns-seen key (turn ∷ turns) store h =
    rw
      (
        append_blocks-seen key turn.number 0 turn.blocks store h.0,
        append_turns-seen key turns store h.1,
      )
      refl

-- A snapshot of a transcript that is appended to a timeline whose set of seen ids is that of its
-- entries, which are distinct, only adds entries at the end, as many as it returns, and leaves the
-- timeline as consistent as it was. Then every block of the transcript has an entry, and appending
-- the same snapshot again adds nothing and changes nothing.
pub append_transcript_snapshot_lem :
    (key : String) (transcript : TranscriptData) (store : AuditTimelineStore)
    → IsConsistent store
    → let after = append_transcript_snapshot key transcript store in
      Grown after.0 store after.1
      × IsConsistent after.1
      × TurnsHold (λ id. any (has_block id) after.1.entries) key transcript.turns
      × (append_transcript_snapshot key transcript after.1 ≡ (0, after.1))
unfolding append_transcript_snapshot
append_transcript_snapshot_lem key transcript store c =
    let after = append_turns key transcript.turns store in
    let grown = append_turns-Grown key transcript.turns store in
    let consistent = grown.0.consistent c in
    (
      grown.0,
      consistent,
      TurnsHold-map (λ id. is_seen id after.1.seen_ids) (λ id. any (has_block id) after.1.entries)
          (λ id h. sym (consistent.seen id) ∙ h) key transcript.turns grown.1,
      append_turns-seen key transcript.turns after.1 grown.1,
    )
