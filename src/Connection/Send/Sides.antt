-- ===== src/Connection/Send/Sides.antt =====
-- What sending leaves alone, and where it rests
-- (protosocket-connection/src/connection.rs, poll_writev_buffers).
use protosocket.Prelude.{ℕ, ◌≡◌, ◌⊎◌, List, length}
use protosocket.Codec.{Codec}
use protosocket.Reactor.{MessageReactor, Stream, Buf, finished, waiting}
use protosocket.Connection.State.{Connection}
use protosocket.Connection.Send.{gather}

abbrev pub Receiving : Type 0
Receiving = List ℕ × ℕ × ℕ × ℕ × ℕ

module _ {S D R B L : Type 0} where
  -- The receiving half, and the limit of the sending half.
  abbrev pub receiving : Connection S D R B L → Receiving
  receiving c = (
    c.receive_buffer, c.receive_buffer_unread_index, c.max_buffer_length,
    c.buffer_allocation_increment, c.max_queued_send_messages,
  )

module _ {S D R B I O L : Type 0} (stream : Stream S) (buf : Buf B) (codec : Codec D I O B)
    (reactor : MessageReactor R D B I O L) where
  -- The stream is to be woken for more of the buffers, or there are none, and it was flushed or is to
  -- be woken to flush.
  abbrev pub Rests : Connection S D R B L → Type 0
  Rests c =
      ((s : S) × (stream.poll_write_vectored s (gather stream buf codec reactor c.send_buffer 0)
          ≡ (c.stream, waiting)))
      ⊎ ((length c.send_buffer ≡ 0)
          × ((s : S) × ((stream.poll_flush s ≡ (c.stream, waiting))
                ⊎ (stream.poll_flush s ≡ (c.stream, finished tt)))))
