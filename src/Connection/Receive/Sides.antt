-- ===== src/Connection/Receive/Sides.antt =====
-- What receiving leaves alone (protosocket-connection/src/connection.rs, poll_read_inbound).
use protosocket.Prelude.{
  ℕ, ◌-◌, ◌≡◌, refl, sym, ◌∙◌, subst, Bool-cases, inl, inr, ltb, length, List, arith,
}
use protosocket.Codec.{Codec, would_block, interrupted, other}
use protosocket.Reactor.{MessageReactor, Stream, Io, finished, failed, waiting}
use protosocket.Connection.State.{Connection}
use protosocket.Connection.Receive.{
  on_read, grow, poll_read_from_stream, read_if_room, poll_read_inbound,
}
use protosocket.Connection.Receive.Reaction.{Keeps}

module _ {S : Type 0} (stream : Stream S) where
  -- Only reads lead from the one state of the stream to the other.
  pub data Reads : S → S → Type 0 where
    no_read : {s : S} → Reads s s
    then_read : {s s' : S} → (room : ℕ) → Reads (stream.poll_read s room).0 s' → Reads s s'

  pub Reads-trans : {s s' s'' : S} → Reads s s' → Reads s' s'' → Reads s s''
  Reads-trans no_read more = more
  Reads-trans (then_read room rest) more = then_read room (Reads-trans rest more)

module _ {S D R B L : Type 0} (stream : Stream S) where
  -- The sending half is as before, and the stream was only read.
  pub record Sides (c c' : Connection S D R B L) : Type 0 where
    pub outbound_messages : c'.outbound_messages ≡ c.outbound_messages
    pub send_buffer : c'.send_buffer ≡ c.send_buffer
    pub max_queued_send_messages : c'.max_queued_send_messages ≡ c.max_queued_send_messages
    pub reads : Reads stream c.stream c'.stream

  pub Sides-trans : {c c' c'' : Connection S D R B L} → Sides c c' → Sides c' c'' → Sides c c''
  Sides-trans a b = record {
    outbound_messages = b.outbound_messages ∙ a.outbound_messages;
    send_buffer = b.send_buffer ∙ a.send_buffer;
    max_queued_send_messages = b.max_queued_send_messages ∙ a.max_queued_send_messages;
    reads = Reads-trans stream a.reads b.reads;
  }

  pub Keeps-Sides : (c c' : Connection S D R B L) → Keeps c c' → Sides c c'
  Keeps-Sides c c' k = record {
    outbound_messages = k.outbound_messages;
    send_buffer = k.send_buffer;
    max_queued_send_messages = k.max_queued_send_messages;
    reads = subst (Reads stream c.stream) (sym k.stream) no_read;
  }

  grow-Sides : (c : Connection S D R B L) → Sides c (grow c)
  unfolding grow
  grow-Sides c = record {
    outbound_messages = ground arith;
    send_buffer = ground arith;
    max_queued_send_messages = ground arith;
    reads = subst (Reads stream c.stream) (the_stream) no_read;
  }
    where
      the_stream : c.stream ≡ (grow c).stream
      the_stream = ground arith

  on_read-Sides : (c : Connection S D R B L) (out : Io (List ℕ)) → Sides c (on_read c out).1
  unfolding on_read
  on_read-Sides c (finished bytes) = record {
    outbound_messages = ground arith;
    send_buffer = ground arith;
    max_queued_send_messages = ground arith;
    reads = subst (Reads stream c.stream) the_stream no_read;
  }
    where
      the_stream : c.stream ≡ (on_read c (finished bytes)).1.stream
      the_stream = ground arith
  on_read-Sides c (failed would_block) = record {
    outbound_messages = refl;
    send_buffer = refl;
    max_queued_send_messages = refl;
    reads = no_read;
  }
  on_read-Sides c (failed interrupted) = record {
    outbound_messages = refl;
    send_buffer = refl;
    max_queued_send_messages = refl;
    reads = no_read;
  }
  on_read-Sides c (failed other) = record {
    outbound_messages = refl;
    send_buffer = refl;
    max_queued_send_messages = refl;
    reads = no_read;
  }
  on_read-Sides c waiting = record {
    outbound_messages = refl;
    send_buffer = refl;
    max_queued_send_messages = refl;
    reads = no_read;
  }

  module _ {I O : Type 0} (codec : Codec D I O B) (reactor : MessageReactor R D B I O L) where
    poll_read_from_stream-Sides :
        (c : Connection S D R B L) → Sides c (poll_read_from_stream stream codec reactor c).1
    unfolding poll_read_from_stream
    poll_read_from_stream-Sides c =
        let (s, out) =
          stream.poll_read c.stream (length c.receive_buffer - c.receive_buffer_unread_index) in
        Sides-trans {c' = record c { stream = s }}
          (record {
            outbound_messages = refl;
            send_buffer = refl;
            max_queued_send_messages = refl;
            reads = then_read (length c.receive_buffer - c.receive_buffer_unread_index) no_read;
          })
          (on_read-Sides (record c { stream = s }) out)

    read_if_room-Sides :
        (c : Connection S D R B L) → Sides c (read_if_room stream codec reactor c).1
    unfolding read_if_room
    read_if_room-Sides c =
        elim (Bool-cases (ltb 0 (length c.receive_buffer - c.receive_buffer_unread_index))) [
          | inl e ↦ rw e (poll_read_from_stream-Sides c)
          | inr e ↦ rw e (record {
            outbound_messages = refl;
            send_buffer = refl;
            max_queued_send_messages = refl;
            reads = no_read;
          })
        ]

    -- An attempt to read touches nothing of the sending half.
    pub poll_read_inbound-Sides :
        (c : Connection S D R B L) → Sides c (poll_read_inbound stream codec reactor c).1
    unfolding poll_read_inbound
    poll_read_inbound-Sides c = Sides-trans (grow-Sides c) (read_if_room-Sides (grow c))
