-- ===== src/Connection/Send/Closing.antt =====
-- When a connection closes with bytes that are not written
-- (protosocket-connection/src/connection.rs, poll_writev_buffers).
use protosocket.Prelude.{
  Poll, ready, pending, done, ℕ, suc, ◌-◌, ◌^◌, ◌<◌, ◌≡◌, refl, ap, ◌∙◌, true, List, [], ◌∷◌,
  length, Option, none, some, arith,
}
use protosocket.Prelude.Word.{sub64}
use protosocket.Codec.{Codec}
use protosocket.SendBudget
use protosocket.Reactor.{MessageReactor, Stream, Buf, finished}
use protosocket.Spillway.Receiver.{Receiver}
use protosocket.Spillway.Receiver.Validity.{stored, IsValid, Reports, poll_next-Answers}
use protosocket.Connection.State.{Connection}
use protosocket.Connection.Send.{
  ok, uio_maxiov, gather, drain_queue, ask_reactor, poll_serialize_outbound_messages, on_written,
  write_once, write_or_flush, poll_writev_buffers,
}

module _ {S D R B I O L : Type 0} (stream : Stream S) (buf : Buf B) (codec : Codec D I O B)
    (reactor : MessageReactor R D B I O L) where
  -- Nothing is queued, and nobody is left to send.
  pub record IsQuiet (c : Connection S D R B L) : Type 0 where
    pub valid : IsValid c.outbound_messages
    pub nothing : stored c.outbound_messages ≡ 0
    pub nobody : c.outbound_messages.shared.senders ≡ 0

  ends_poll :
      (q : Receiver L) (p : Poll (Option L)) (r : Receiver L)
      → stored q ≡ 0
      → q.shared.senders ≡ 0
      → Reports q p r
      → p ≡ ready none
  ends_poll q (ready (some m)) r nothing nobody says = absurd (omega (arith, nothing, says))
  ends_poll q (ready none) r nothing nobody says = refl
  ends_poll q pending r nothing nobody (_, _, senders, _) = absurd (senders nobody)

  drain_quiet :
      (rounds : ℕ) (c : Connection S D R B L)
      → IsQuiet c
      → (c' : Connection S D R B L) × (drain_queue stream buf codec reactor (suc rounds) c
          ≡ done (true, c'))
        × (c'.send_buffer ≡ c.send_buffer)
        × (c'.stream ≡ c.stream)
        × (c'.reactor ≡ c.reactor)
        × (c'.codec ≡ c.codec)
  unfolding drain_queue
  drain_quiet rounds c h =
      let (p, r, e, valid, says) = poll_next-Answers c.outbound_messages h.valid in
      let e' =
        e ∙ ap (λ x. some (x, r)) (ends_poll c.outbound_messages p r h.nothing h.nobody says) in
      (record c { outbound_messages = r }, ground (arith, e'), refl, refl, refl, refl)

  -- The reactor has finished, and leaves the send buffer alone.
  abbrev pub IsExhausted : Connection S D R B L → Type 0
  IsExhausted c =
      (n : ℕ)
      → (r : R) × (d : D) × (n' : ℕ) × (reactor.poll_outbound_many c.reactor
            (SendBudget.new c.codec c.send_buffer n)
          ≡ (r, SendBudget.new d c.send_buffer n', ready none))

  ask_exhausted :
      (n : ℕ) (c c' : Connection S D R B L)
      → 0 < n
      → IsExhausted c
      → c'.send_buffer ≡ c.send_buffer
      → c'.reactor ≡ c.reactor
      → c'.codec ≡ c.codec
      → (c'' : Connection S D R B L) × (ask_reactor stream buf codec reactor n (true, c')
          ≡ (true, c''))
        × (c''.send_buffer ≡ c.send_buffer)
        × (c''.stream ≡ c'.stream)
  unfolding ask_reactor SendBudget.new
  ask_exhausted n c c' pos h b r d =
      let (r', d', n', e) = h n in
      let answer : reactor.poll_outbound_many c'.reactor (SendBudget.new c'.codec c'.send_buffer n)
          ≡ (r', SendBudget.new d' c.send_buffer n', ready none) =
        ap (λ x. reactor.poll_outbound_many x (SendBudget.new c'.codec c'.send_buffer n)) r
        ∙ ap (λ x. reactor.poll_outbound_many c.reactor (SendBudget.new x c'.send_buffer n)) d
        ∙ ap (λ x. reactor.poll_outbound_many c.reactor (SendBudget.new c.codec x n)) b
        ∙ e in
      (
        record c' { reactor = r'; codec = d'; send_buffer = c.send_buffer },
        ground (arith, answer, pos),
        refl,
        refl,
      )

  sub64_room :
      (c : Connection S D R B L)
      → length c.send_buffer < c.max_queued_send_messages
      → c.max_queued_send_messages < 2 ^ 64
      → (n : ℕ) × (sub64 c.max_queued_send_messages (length c.send_buffer) ≡ suc n)
  sub64_room c room word =
      (c.max_queued_send_messages - length c.send_buffer - 1, omega (arith, room, word))

  closing_with :
      (fuel : ℕ) (c : Connection S D R B L)
      → IsQuiet c
      → IsExhausted c
      → (n : ℕ) × (sub64 c.max_queued_send_messages (length c.send_buffer) ≡ suc n)
      → (c' : Connection S D R B L) × (poll_writev_buffers stream buf codec reactor (suc fuel) c
          ≡ done (ok true, c'))
        × (c'.send_buffer ≡ c.send_buffer)
        × (c'.stream ≡ c.stream)
  unfolding poll_writev_buffers poll_serialize_outbound_messages
  closing_with fuel c h ex (n, e) =
      let (c', run, b, st, r, d) = drain_quiet n c h in
      let (c'', ask, b', st') =
        ask_exhausted (suc n - (length c'.send_buffer - length c.send_buffer)) c c'
          (omega (arith, ap length b)) ex b r d in
      (c'', ground (arith, e, run, ask), b', st' ∙ st)

  -- A connection whose queue is closed and empty and whose reactor has finished, and whose send
  -- buffer is not full, closes at once: the buffers that are already serialized, any number below
  -- `max_queued_send_messages`, are not written.
  pub closing_drops :
      (fuel : ℕ) (c : Connection S D R B L)
      → IsQuiet c
      → IsExhausted c
      → length c.send_buffer < c.max_queued_send_messages
      → c.max_queued_send_messages < 2 ^ 64
      → (c' : Connection S D R B L) × (poll_writev_buffers stream buf codec reactor (suc fuel) c
          ≡ done (ok true, c'))
        × (c'.send_buffer ≡ c.send_buffer)
        × (c'.stream ≡ c.stream)
  closing_drops fuel c h ex room word = closing_with fuel c h ex (sub64_room c room word)

  -- The first buffer is empty, as the encoder of an empty message may leave it, and the stream
  -- answers a write of no slices with 0 bytes.
  empty_front_closes :
      (c : Connection S D R B L) (front : B) (bs : List B) (s : S)
      → c.send_buffer ≡ front ∷ bs
      → ((slots : ℕ) → buf.chunks_vectored front slots ≡ [])
      → stream.poll_write_vectored c.stream [] ≡ (s, finished 0)
      → write_or_flush stream buf codec reactor c ≡ (some (ok true), record c { stream = s })
  unfolding write_or_flush write_once on_written gather
  empty_front_closes c front bs s e empty w = ground (arith, e, empty (uio_maxiov - 0), w)
