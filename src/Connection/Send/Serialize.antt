-- ===== src/Connection/Send/Serialize.antt =====
-- Serializing stays within the send budget and keeps the order
-- (protosocket-connection/src/connection.rs, poll_serialize_outbound_messages).
use protosocket.Prelude.{
  done, ℕ, ◌-◌, ◌^◌, ◌≤◌, ◌<◌, ◌≡◌, ◌≢◌, ◌⊎◌, inl, inr, refl, ap, ◌∙◌, Bool, true, false, ◌&&◌, ltb,
  ◌==◌, Bool-cases, List, [], ◌++◌, length, arith, length-append,
}
use protosocket.Prelude.Word.{sub64, sub64_small}
use protosocket.Codec.{Codec}
use protosocket.SendBudget
use protosocket.SendBudget.{SendBudget, Spends, Spends-send_buffer}
use protosocket.Reactor.{MessageReactor, Stream, Buf}
use protosocket.Spillway.Receiver.Validity.{stored, IsValid}
use protosocket.Connection.State.{Connection}
use protosocket.Connection.Send.{is_finished, ask_reactor, poll_serialize_outbound_messages}
use protosocket.Connection.Send.Draining.{
  IsThrifty, Queued, Drains, no_messages, Queued_trans, drain_queue-Drains,
}

module _ {S D R B I O L : Type 0} (stream : Stream S) (buf : Buf B) (codec : Codec D I O B)
    (reactor : MessageReactor R D B I O L) where
  module _ (thrifty : IsThrifty stream buf codec reactor) (remaining : ℕ) (closed : Bool)
      (c : Connection S D R B L) (h : IsValid c.outbound_messages) where
    abbrev Asks : Type 0
    Asks =
        (over : Bool) × (c' : Connection S D R B L) × (added : List B) × (ask_reactor stream buf
            codec reactor remaining (closed, c)
          ≡ (over, c'))
        × Queued stream buf codec reactor c added c'
        × (length added ≤ remaining)
        × (c'.outbound_messages ≡ c.outbound_messages)
        × (over ≡ true → closed ≡ true)

    spent_Asks : ltb 0 remaining ≡ false → Asks
    unfolding ask_reactor
    spent_Asks spent = (
      false,
      c,
      [],
      ground (arith, spent),
      no_messages stream buf codec reactor c c.outbound_messages h,
      omega arith,
      refl,
      λ f. cc,
    )

    abbrev turn : SendBudget D B
    turn = SendBudget.new c.codec c.send_buffer remaining

    room_Asks : ltb 0 remaining ≡ true → Asks
    unfolding ask_reactor SendBudget.new
    room_Asks room =
        let (added, back, count) = Spends-send_buffer codec.encoder (thrifty c.reactor turn) in
        (
          closed
              && is_finished stream buf codec reactor (reactor.poll_outbound_many c.reactor turn).2,
          record c {
            reactor = (reactor.poll_outbound_many c.reactor turn).0;
            codec = (reactor.poll_outbound_many c.reactor turn).1.encoder;
            send_buffer = (reactor.poll_outbound_many c.reactor turn).1.send_buffer;
          },
          added,
          ground (arith, room),
          record {
            behind = back;
            same_stream = refl;
            max_queued_send_messages = refl;
            same_receiving = refl;
            valid = h;
          },
          omega (arith, count),
          refl,
          λ e. ground (arith, e),
        )

    -- The reactor's turn adds no more than what is left of the budget.
    ask_reactor-Asks : Asks
    ask_reactor-Asks = elim (Bool-cases (ltb 0 remaining)) [
      | inl e ↦ room_Asks e
      | inr e ↦ spent_Asks e
    ]

  -- What serializing does: it adds buffers within the bound, takes the queue's messages first, and
  -- reports the end only when the queue has nothing left.
  unfoldable pub Serializes : Connection S D R B L → Type 0
  Serializes c =
      (over : Bool) × (c' : Connection S D R B L) × (added : List B)
      × (poll_serialize_outbound_messages stream buf codec reactor c ≡ done (over, c'))
      × Queued stream buf codec reactor c added c'
      × (length c'.send_buffer ≤ c.max_queued_send_messages)
      × (over ≡ true → stored c'.outbound_messages ≡ 0)
      × ((stored c'.outbound_messages ≡ 0) ⊎ (length c'.send_buffer ≡ c.max_queued_send_messages))

  module _ (thrifty : IsThrifty stream buf codec reactor) (c : Connection S D R B L)
      (h : IsValid c.outbound_messages)
      (bounded : length c.send_buffer ≤ c.max_queued_send_messages)
      (word : c.max_queued_send_messages < 2 ^ 64) where
    full_Serializes : sub64 c.max_queued_send_messages (length c.send_buffer) ≡ 0 → Serializes c
    unfolding Serializes poll_serialize_outbound_messages
    full_Serializes e = (
      false,
      c,
      [],
      ground (arith, e),
      no_messages stream buf codec reactor c c.outbound_messages h,
      bounded,
      λ f. cc,
      inr (omega (arith, e)),
    )

    room_Serializes : sub64 c.max_queued_send_messages (length c.send_buffer) ≢ 0 → Serializes c
    unfolding Serializes poll_serialize_outbound_messages Drains
    room_Serializes ne =
        let room = sub64 c.max_queued_send_messages (length c.send_buffer) in
        let exact = sub64_small c.max_queued_send_messages (length c.send_buffer) bounded word in
        let (closed, c', xs, run, q, few, count, all, full) =
          drain_queue-Drains stream buf codec reactor room c h in
        let (over, c'', ys, run', q', few', same, closes) =
          ask_reactor-Asks thrifty (room - (length c'.send_buffer - length c.send_buffer)) closed c'
            q.valid in
        let sizes = length-append c.send_buffer xs in
        let sizes' = length-append c'.send_buffer ys in
        (
          over,
          c'',
          xs ++ ys,
          ground (arith, ne, run, run'),
          Queued_trans stream buf codec reactor q q',
          omega (
            arith,
            ap length q.behind,
            ap length q'.behind,
            sizes,
            sizes',
            few,
            few',
            exact,
            bounded,
          ),
          λ e. ap stored same ∙ all (closes e),
          elim full [
            | inl e ↦ inl (ap stored same ∙ e)
            | inr e ↦ inr (
                omega (
                  arith,
                  ap length q.behind,
                  ap length q'.behind,
                  sizes,
                  sizes',
                  few',
                  exact,
                  bounded,
                  e,
                ))
          ],
        )

    -- Serializing from a valid connection adds buffers behind those that are queued, never more than
    -- `max_queued_send_messages` in all, takes messages until none is left or the bound is reached,
    -- and reports the end only with no message left in the queue.
    pub poll_serialize_outbound_messages-Serializes : Serializes c
    poll_serialize_outbound_messages-Serializes =
        elim (Bool-cases (sub64 c.max_queued_send_messages (length c.send_buffer) == 0)) [
          | inl e ↦ full_Serializes (ground (arith, e))
          | inr e ↦ room_Serializes (λ f. ground (arith, e, f))
        ]
