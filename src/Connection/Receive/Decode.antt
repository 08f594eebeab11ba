-- ===== src/Connection/Receive/Decode.antt =====
-- The decode loop refines the specification of a pass (protosocket-connection/src/connection.rs,
-- read_inbound_messages_and_react).
use protosocket.Prelude.{
  ℕ, zero, suc, ◌+◌, ◌-◌, ◌≤◌, ◌<◌, ◌≡◌, inl, inr, refl, ◌∙◌, ltb, ltb→lt, ltb→le, Bool-cases, [],
  length, arith, length-eq-zero,
}
use native.Mathlib.Decide.{ℕ_discrete}
use protosocket.Prelude.Word.{add64, add64_small}
use protosocket.Codec.{
  Codec, DeserializeError, Decoded, message, refused, incomplete_buffer, invalid_buffer,
  skip_message, ReactorStatus, go_on, disconnect,
}
use protosocket.Reactor.{MessageReactor, Stream}
use protosocket.Connection.State.{Connection, pending, disconnected}
use protosocket.Connection.Receive.{on_decoded, decode_loop, read_inbound_messages_and_react}
use protosocket.Connection.Receive.Cursor.{bytes_at, IsValid, length-bytes_at}
use protosocket.Connection.Receive.Consumes.{
  drained, took, stopped, skipped, skips_later, waits, too_long, broken, IsHonest,
}
use protosocket.Connection.Receive.Reaction.{
  Reaction, with_codec, round_again, round_leave, round_return, decode_round_end,
  decode_round_decoded, bytes_at-ne-nil, leave-Reaction, return-Reaction, again-Reaction,
}

module _ {S D R B I O L : Type 0} (stream : Stream S) (codec : Codec D I O B)
    (reactor : MessageReactor R D B I O L) where
  -- The rounds that are left suffice: each takes at least one byte.
  abbrev Loops : ℕ → Type 0
  Loops fuel =
      (c : Connection S D R B L) (cursor : ℕ)
      → IsValid c
      → IsHonest codec c.max_buffer_length
      → cursor ≤ c.receive_buffer_unread_index
      → c.receive_buffer_unread_index < cursor + fuel
      → Reaction stream codec reactor c cursor (decode_loop stream codec reactor fuel cursor c)

  module _ (fuel : ℕ) (ih : Loops fuel) (c : Connection S D R B L) (cursor : ℕ) (h : IsValid c)
      (honest : IsHonest codec c.max_buffer_length) (lt : cursor < c.receive_buffer_unread_index)
      (enough : c.receive_buffer_unread_index < cursor + suc fuel) where
    -- The next round, with `n` bytes taken.
    next_round :
        (d : D) (r : R) (n : ℕ)
        → 0 < n
        → n ≤ length (bytes_at c cursor)
        → Reaction stream codec reactor
            (with_codec c d r)
            (cursor + n)
            (decode_loop stream codec reactor fuel (add64 cursor n) (with_codec c d r))
    next_round d r n pos le =
        let size = length-bytes_at c cursor h in
        let no_wrap : add64 cursor n ≡ cursor + n =
          add64_small cursor n (omega (arith, size, h.in_buffer, h.allocated)) in
        rw no_wrap (
          ih (with_codec c d r) (cursor + n)
            (record { in_buffer = h.in_buffer; allocated = h.allocated }) honest
            (omega (arith, size)) (omega arith))

    message_Reaction :
        (d : D) (n : ℕ) (m : I) (r : R) (status : ReactorStatus)
        → codec.decode c.codec (bytes_at c cursor) ≡ (d, message n m)
        → reactor.on_inbound_message c.reactor m ≡ (r, status)
        → Reaction stream codec reactor c cursor
            (decode_loop stream codec reactor (suc fuel) cursor c)
    unfolding on_decoded
    message_Reaction d n m r go_on e on =
        let (pos, le) = honest.takes c.codec d (bytes_at c cursor) n m e in
        rw
          (round_again stream codec reactor fuel cursor c (add64 cursor n) (with_codec c d r) (
            decode_round_decoded stream codec reactor c cursor h d (message n m) lt e
            ∙ ground arith))
          (again-Reaction stream codec reactor c cursor h d r n _
            (λ _ _ _ _ con. took (bytes_at-ne-nil stream codec reactor c cursor h lt) e on con)
            (next_round d r n pos le))
    message_Reaction d n m r disconnect e on =
        rw
          (round_return stream codec reactor fuel cursor c disconnected (with_codec c d r) (
            decode_round_decoded stream codec reactor c cursor h d (message n m) lt e
            ∙ ground arith))
          (return-Reaction stream codec reactor c cursor h d r
            (stopped (bytes_at-ne-nil stream codec reactor c cursor h lt) e on))

    refused_Reaction :
        (d : D) (why : DeserializeError)
        → codec.decode c.codec (bytes_at c cursor) ≡ (d, refused why)
        → Reaction stream codec reactor c cursor
            (decode_loop stream codec reactor (suc fuel) cursor c)
    unfolding on_decoded
    refused_Reaction d (incomplete_buffer n) e = elim (Bool-cases (ltb c.max_buffer_length n)) [
      | inl over ↦
          rw
            (round_return stream codec reactor fuel cursor c disconnected (with_codec c d c.reactor)
              (decode_round_decoded stream codec reactor c cursor h d
                  (refused (incomplete_buffer n)) lt e
                ∙ rw over))
            (return-Reaction stream codec reactor c cursor h d c.reactor
              (too_long (bytes_at-ne-nil stream codec reactor c cursor h lt) e (ltb→lt _ _ over)))
      | inr fits ↦
          rw
            (round_leave stream codec reactor fuel cursor c pending cursor
              (with_codec c d c.reactor)
              (decode_round_decoded stream codec reactor c cursor h d
                  (refused (incomplete_buffer n)) lt e
                ∙ rw fits))
            (leave-Reaction stream codec reactor c cursor h d c.reactor (omega arith)
              (waits (bytes_at-ne-nil stream codec reactor c cursor h lt) e (ltb→le _ _ fits)))
    ]
    refused_Reaction d invalid_buffer e =
        rw
          (round_return stream codec reactor fuel cursor c disconnected (with_codec c d c.reactor)
            (decode_round_decoded stream codec reactor c cursor h d (refused invalid_buffer) lt e))
          (return-Reaction stream codec reactor c cursor h d c.reactor
            (broken (bytes_at-ne-nil stream codec reactor c cursor h lt) e))
    refused_Reaction d (skip_message n) e =
        let size = length-bytes_at c cursor h in
        elim (Bool-cases (ltb (c.receive_buffer_unread_index - cursor) n)) [
          | inl over ↦
              rw
                (round_leave stream codec reactor fuel cursor c pending cursor
                  (with_codec c d c.reactor)
                  (decode_round_decoded stream codec reactor c cursor h d (refused (skip_message n))
                      lt e
                    ∙ rw over))
                (leave-Reaction stream codec reactor c cursor h d c.reactor (omega arith) (
                  skips_later (bytes_at-ne-nil stream codec reactor c cursor h lt) e
                    (rw size (ltb→lt _ _ over))))
          | inr fits ↦
              let le : n ≤ length (bytes_at c cursor) = rw size (ltb→le _ _ fits) in
              rw
                (round_again stream codec reactor fuel cursor c (add64 cursor n)
                  (with_codec c d c.reactor)
                  (decode_round_decoded stream codec reactor c cursor h d (refused (skip_message n))
                      lt e
                    ∙ rw fits))
                (again-Reaction stream codec reactor c cursor h d c.reactor n _
                  (λ _ _ _ _ con.
                    skipped (bytes_at-ne-nil stream codec reactor c cursor h lt) e le con)
                  (next_round d c.reactor n (honest.skips c.codec d (bytes_at c cursor) n e).0 le))
        ]

    decoded_Reaction :
        (d : D) (out : Decoded I)
        → codec.decode c.codec (bytes_at c cursor) ≡ (d, out)
        → Reaction stream codec reactor c cursor
            (decode_loop stream codec reactor (suc fuel) cursor c)
    decoded_Reaction d (message n m) e =
        message_Reaction d n m (reactor.on_inbound_message c.reactor m).0
          (reactor.on_inbound_message c.reactor m).1 e refl
    decoded_Reaction d (refused why) e = refused_Reaction d why e

  end_Reaction :
      (fuel : ℕ) (c : Connection S D R B L) (cursor : ℕ)
      → IsValid c
      → cursor ≡ c.receive_buffer_unread_index
      → Reaction stream codec reactor c cursor
          (decode_loop stream codec reactor (suc fuel) cursor c)
  end_Reaction fuel c cursor h e =
      let empty : bytes_at c cursor ≡ [] =
        length-eq-zero (bytes_at c cursor) (omega (arith, length-bytes_at c cursor h)) in
      rw
        (round_leave stream codec reactor fuel cursor c pending cursor c
          (decode_round_end stream codec reactor c cursor h e))
        (leave-Reaction stream codec reactor c cursor h c.codec c.reactor (omega arith)
          (rw empty drained))

  decode_loop-Reaction : (fuel : ℕ) → Loops fuel
  decode_loop-Reaction zero c cursor h honest le enough = absurd (omega arith)
  decode_loop-Reaction (suc fuel) c cursor h honest le enough =
      elim (ℕ_discrete cursor c.receive_buffer_unread_index) [
        | yes e ↦ end_Reaction fuel c cursor h e
        | no ne ↦
            decoded_Reaction fuel (decode_loop-Reaction fuel) c cursor h honest (omega arith) enough
              (codec.decode c.codec (bytes_at c cursor)).0
              (codec.decode c.codec (bytes_at c cursor)).1 refl
      ]

  -- With an honest codec and more rounds than unread bytes, a pass over the received bytes ends: it
  -- never panics, and hands the messages at the front of the unread bytes to the reactor in order,
  -- as the specification `Consumes` says. If it parks, the bytes that it did not consume are the
  -- unread ones afterwards. The bytes stay within the buffer, and neither the size of the buffer nor
  -- any other part of the connection changes.
  pub read_inbound_messages_and_react-Reaction :
      (fuel : ℕ) (c : Connection S D R B L)
      → IsValid c
      → IsHonest codec c.max_buffer_length
      → c.receive_buffer_unread_index < fuel
      → Reaction stream codec reactor c 0
          (read_inbound_messages_and_react stream codec reactor fuel c)
  unfolding read_inbound_messages_and_react
  read_inbound_messages_and_react-Reaction fuel c h honest enough =
      decode_loop-Reaction fuel c 0 h honest (omega arith) (omega arith)
