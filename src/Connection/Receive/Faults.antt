-- ===== src/Connection/Receive/Faults.antt =====
-- How a codec makes a connection spin or panic (protosocket-connection/src/connection.rs, poll_receive and
-- read_inbound_messages_and_react).
use protosocket.Prelude.{
  done, panic, starved, ℕ, zero, suc, ◌^◌, ◌≤◌, ◌<◌, ◌≡◌, refl, ap, ◌∙◌, length, take, some, arith,
  take_all,
}
use protosocket.Prelude.Word.{add64}
use protosocket.Codec.{
  Codec, DeserializeError, message, refused, incomplete_buffer, invalid_buffer, skip_message, go_on,
}
use protosocket.Reactor.{MessageReactor, Stream}
use protosocket.Connection.State.{Connection, pending, more_to_read, error}
use protosocket.Connection.Receive.{
  slice?, leave, on_decoded, shift_unread, decode_round, grow, read_if_room, poll_read_inbound,
  read_inbound_messages_and_react, poll_receive,
}
use protosocket.Connection.Receive.Cursor.{bytes_at, unread, IsValid}
use protosocket.Connection.Receive.Reaction.{
  with_codec, round_again, round_leave, decode_round_decoded,
}
use protosocket.Connection.Receive.Rounds.{poll_receive_again}

module _ {S D R B L : Type 0} where
  -- The buffer is at its limit and all of it is unread.
  pub record IsFull (c : Connection S D R B L) : Type 0 where
    pub full : c.receive_buffer_unread_index ≡ length c.receive_buffer
    pub limit : c.max_buffer_length ≤ length c.receive_buffer
    pub some_bytes : 0 < length c.receive_buffer
    pub allocated : length c.receive_buffer < 2 ^ 63

  -- Answers of a codec to a full buffer that keep the connection, and consume nothing.
  abbrev pub Stalls : Connection S D R B L → DeserializeError → Type 0
  Stalls c (incomplete_buffer n) = n ≤ c.max_buffer_length
  Stalls c (skip_message n) = length c.receive_buffer < n
  Stalls c invalid_buffer = ⊥

module _ {S D R B I O L : Type 0} (stream : Stream S) (codec : Codec D I O B)
    (reactor : MessageReactor R D B I O L) (c : Connection S D R B L) where
  full_read : IsFull c → poll_read_inbound stream codec reactor c ≡ (more_to_read, c)
  unfolding poll_read_inbound grow read_if_room
  full_read h = ground arith

  all_bytes : IsFull c → bytes_at c 0 ≡ c.receive_buffer
  all_bytes h = take_all _ c.receive_buffer (omega (arith, h.full))

  full-IsValid : IsFull c → IsValid c
  full-IsValid h = record { in_buffer = omega (arith, h.full); allocated = h.allocated }

  on_stall :
      (why : DeserializeError)
      → IsFull c
      → Stalls c why
      → on_decoded stream codec reactor c 0 (refused why) ≡ leave pending 0 c
  unfolding on_decoded
  on_stall (incomplete_buffer n) h s = ground arith
  on_stall (skip_message n) h s = ground (arith, h.full)
  on_stall invalid_buffer h s = absurd s

  unshifted : shift_unread pending 0 c ≡ done (pending, c)
  unfolding shift_unread
  unshifted = refl

  stalled_pass :
      (rounds : ℕ) (why : DeserializeError)
      → IsFull c
      → Stalls c why
      → codec.decode c.codec c.receive_buffer ≡ (c.codec, refused why)
      → read_inbound_messages_and_react stream codec reactor (suc rounds) c ≡ done (pending, c)
  unfolding read_inbound_messages_and_react
  stalled_pass rounds why h s e =
      round_leave stream codec reactor rounds 0 c pending 0 c (
        decode_round_decoded stream codec reactor c 0 (full-IsValid h) c.codec (refused why)
          (omega (arith, h.full, h.some_bytes)) (rw (all_bytes h) e)
        ∙ ap some (on_stall why h s))
      ∙ unshifted

  -- A full receive buffer that the codec neither consumes nor gives up on, because it asks to skip
  -- more bytes than the buffer holds or to wait for a message that would already fit, makes
  -- poll_receive spin: it never returns to the executor, however many rounds it is given.
  pub poll_receive_spins :
      (rounds fuel : ℕ) (why : DeserializeError)
      → IsFull c
      → Stalls c why
      → codec.decode c.codec c.receive_buffer ≡ (c.codec, refused why)
      → poll_receive stream codec reactor (suc rounds) fuel c ≡ starved
  unfolding poll_receive
  poll_receive_spins rounds zero why h s e = refl
  poll_receive_spins rounds (suc fuel) why h s e =
      poll_receive_again stream codec reactor (suc rounds) fuel c c c (full_read h)
        (stalled_pass rounds why h s e)
      ∙ poll_receive_spins rounds fuel why h s e

  over_round :
      (n : ℕ)
      → IsValid c
      → c.receive_buffer_unread_index < n
      → decode_round stream codec reactor c n ≡ some (leave error n c)
  unfolding decode_round
  over_round n h over = ground arith

  over_shift :
      (n : ℕ) → IsValid c → c.receive_buffer_unread_index < n → shift_unread error n c ≡ panic
  unfolding shift_unread slice?
  over_shift n h over = ground arith

module _ {S D R B I O L : Type 0} (stream : Stream S) (codec : Codec D I O B)
    (reactor : MessageReactor R D B I O L) (c : Connection S D R B L) where
  -- A codec that claims to have consumed more bytes than it was shown makes the pass panic in
  -- copy_within, once the reactor has taken the message. The InvalidData error that the loop makes
  -- for this case is never returned.
  pub overrun_panics :
      (rounds n : ℕ) (d : D) (r : R) (m : I)
      → IsValid c
      → 0 < c.receive_buffer_unread_index
      → c.receive_buffer_unread_index < n
      → n < 2 ^ 64
      → codec.decode c.codec (unread c) ≡ (d, message n m)
      → reactor.on_inbound_message c.reactor m ≡ (r, go_on)
      → read_inbound_messages_and_react stream codec reactor (suc (suc rounds)) c ≡ panic
  unfolding read_inbound_messages_and_react on_decoded
  overrun_panics rounds n d r m h some_bytes over small e on =
      let shown : bytes_at c 0 ≡ unread c = ap (λ k. take k c.receive_buffer) (omega arith) in
      let no_wrap : add64 0 n ≡ n = omega arith in
      let c' = with_codec c d r in
      let valid : IsValid c' = record { in_buffer = h.in_buffer; allocated = h.allocated } in
      round_again stream codec reactor (suc rounds) 0 c n c' (
        decode_round_decoded stream codec reactor c 0 h d (message n m) some_bytes (rw shown e)
        ∙ ground (arith, no_wrap, on))
      ∙ round_leave stream codec reactor rounds n c' error n c'
          (over_round stream codec reactor c' n valid over)
      ∙ over_shift stream codec reactor c' n valid over
