-- ===== src/ManagedAgent/Mqtt/Traffic.antt =====
-- Which envelopes the bridge takes events from, and how it numbers those that it sends.
use auspex.Prelude.{
  ℕ, ◌+◌, ◌≤◌, ◌≡◌, refl, ◌⊎◌, String, true, false, some, Result, ok, err, ◌>>=◌, arith, ltb→lt,
  str_eq, eq_iff, ltb, Option-cases, Bool-cases, Result-cases, inl, inr,
}
use auspex.ManagedAgent.Outcome.{
  ManagedRunA2aRequest, ManagedRunA2aCancel, ManagedRunA2aOutcome, ManagedRunA2aOutcomePayload,
  ManagedAgentA2aEvent, event_run_id,
}
use auspex.ManagedAgent.Mqtt.{
  A2aCrates, json, extension, sequence_exhausted, ManagedAgentMqttBridge, ManagedAgentMqttError,
  u64_max, advance, event_of, command_envelope, cancellation_envelope, decode_event,
  managed_run_outcome_schema,
}

event_run_id-event_of :
    (run_id : ℕ) (task_id : String) (m : _) (outcome : ManagedRunA2aOutcome)
    → event_run_id (event_of run_id task_id m outcome) ≡ run_id
unfolding event_run_id event_of
event_run_id-event_of run_id task_id m outcome = grind arith

advance-next_sequence :
    (b : ManagedAgentMqttBridge)
    → ltb b.next_sequence u64_max ≡ true
    → (advance b).1.next_sequence ≡ b.next_sequence + 1
unfolding advance
advance-next_sequence b more = rw (advance, more) refl

advance_exhausted :
    (b : ManagedAgentMqttBridge) → ltb b.next_sequence u64_max ≡ false → (advance b).1 ≡ b
unfolding advance
advance_exhausted b none_left = rw (advance, none_left) refl

module _ (crates : A2aCrates) where
  open crates use {Envelope}

  -- An event is taken only from an envelope that is for this agent, that carries an outcome, and
  -- whose task is the run that the payload names; and the event is for that run.
  pub decode_event_sound :
      (b : ManagedAgentMqttBridge) (e : Envelope) (event : ManagedAgentA2aEvent)
      → decode_event crates b e ≡ ok event
      → (crates.target_agent_id e ≡ b.local_agent_id)
        × (crates.payload_schema e ≡ managed_run_outcome_schema)
        × (crates.task_id e ≡ some (crates.run_id_text (event_run_id event)))
        × ((payload : ManagedRunA2aOutcomePayload) × (crates.read_outcome (crates.a2a_payload e)
              ≡ ok payload)
            × (event_run_id event ≡ payload.managed_run_id))
  unfolding decode_event
  decode_event_sound b e event h =
      elim (Bool-cases (str_eq (crates.target_agent_id e) b.local_agent_id)) [
        | inr other ↦ ground (arith)
        | inl ours ↦
            elim (Bool-cases (str_eq (crates.payload_schema e) managed_run_outcome_schema)) [
              | inr foreign ↦ ground (arith)
              | inl outcome ↦ elim (Option-cases (crates.task_id e)) [
                | inl untold ↦ ground (arith)
                | inr (task_id, told) ↦
                    elim (Result-cases (crates.read_outcome (crates.a2a_payload e))) [
                      | inr (x, unread) ↦ ground (arith)
                      | inl (payload, read) ↦
                          elim (Bool-cases
                            (str_eq (crates.run_id_text payload.managed_run_id) task_id)) [
                              | inr differ ↦ ground (arith)
                              | inl same ↦
                                  let made : event_of payload.managed_run_id task_id
                                        (crates.message_id e) payload.outcome
                                      ≡ event =
                                    ground (arith) in
                                  let run : event_run_id event ≡ payload.managed_run_id = cc (
                                    made,
                                    event_run_id-event_of payload.managed_run_id task_id
                                        (crates.message_id e) payload.outcome,
                                  ) in
                                  let text : crates.run_id_text payload.managed_run_id ≡ task_id =
                                    ground (
                                      arith,
                                      eq_iff (crates.run_id_text payload.managed_run_id) task_id,
                                    ) in
                                  (
                                    ground
                                        (arith, eq_iff (crates.target_agent_id e) b.local_agent_id),
                                    ground (
                                      arith,
                                      eq_iff (crates.payload_schema e) managed_run_outcome_schema,
                                    ),
                                    cc,
                                    (payload, read, run),
                                  )
                            ]
                    ]
              ]
            ]
      ]

  -- What taking a number does: the next number is one more and still fits a `u64`, or there is an
  -- error and the bridge is as it was.
  abbrev pub Numbers :
      ManagedAgentMqttBridge
      → Result ManagedAgentMqttError Envelope × ManagedAgentMqttBridge
      → Type 0
  Numbers b (result, b') =
      (b'.next_sequence ≤ u64_max)
      × (((e : ManagedAgentMqttError) × (result ≡ err e) × (b' ≡ b))
          ⊎ ((e : Envelope) × (result ≡ ok e) × (b'.next_sequence ≡ b.next_sequence + 1)))

  -- If the next number fits a `u64`, it goes on to fit one. Each envelope that is made, for a
  -- command or for a cancellation, takes the next number. When the numbers of a `u64` have run
  -- out, there is an error rather than a number that comes again; no error takes a number.
  pub envelope-Numbers :
      (command : ManagedRunA2aRequest) (cancellation : ManagedRunA2aCancel) (root : String)
      (now_ms ttl_ms : ℕ) (b : ManagedAgentMqttBridge)
      → b.next_sequence ≤ u64_max
      → Numbers b (command_envelope crates command now_ms ttl_ms b)
        × Numbers b (cancellation_envelope crates cancellation root now_ms ttl_ms b)
  unfolding command_envelope cancellation_envelope advance
  envelope-Numbers command cancellation root now_ms ttl_ms b h = (
    elim (Result-cases (crates.write_request command)) [
      | inr (x, unwritten) ↦ rw (command_envelope, ◌>>=◌, unwritten) (h, inl (json x, refl, refl))
      | inl (payload, written) ↦ elim (Result-cases (crates.new_root command.parent_session_id)) [
        | inr (x, invalid) ↦
            rw (command_envelope, ◌>>=◌, written, invalid) (h, inl (extension x, refl, refl))
        | inl (id, valid) ↦ elim (Bool-cases (ltb b.next_sequence u64_max)) [
          | inl more ↦
              rw (command_envelope, advance, ◌>>=◌, written, valid, more)
                (
                  omega (arith, ltb→lt b.next_sequence u64_max more, advance-next_sequence b more),
                  inr (_, refl, advance-next_sequence b more),
                )
          | inr none_left ↦
              rw (command_envelope, advance, ◌>>=◌, written, valid, none_left)
                (
                  rw (advance_exhausted b none_left) h,
                  inl (sequence_exhausted, refl, advance_exhausted b none_left),
                )
        ]
      ]
    ],
    elim (Result-cases (crates.write_cancel cancellation)) [
      | inr (x, unwritten) ↦
          rw (cancellation_envelope, ◌>>=◌, unwritten) (h, inl (json x, refl, refl))
      | inl (payload, written) ↦ elim (Result-cases (crates.new_root root)) [
        | inr (x, invalid) ↦
            rw (cancellation_envelope, ◌>>=◌, written, invalid) (h, inl (extension x, refl, refl))
        | inl (id, valid) ↦ elim (Bool-cases (ltb b.next_sequence u64_max)) [
          | inl more ↦
              rw (cancellation_envelope, advance, ◌>>=◌, written, valid, more)
                (
                  omega (arith, ltb→lt b.next_sequence u64_max more, advance-next_sequence b more),
                  inr (_, refl, advance-next_sequence b more),
                )
          | inr none_left ↦
              rw (cancellation_envelope, advance, ◌>>=◌, written, valid, none_left)
                (
                  rw (advance_exhausted b none_left) h,
                  inl (sequence_exhausted, refl, advance_exhausted b none_left),
                )
        ]
      ]
    ],
  )
