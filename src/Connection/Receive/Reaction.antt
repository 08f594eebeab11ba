-- ===== src/Connection/Receive/Reaction.antt =====
-- A pass over the received bytes refines its specification (protosocket-connection/src/connection.rs,
-- read_inbound_messages_and_react).
use protosocket.Prelude.{
  Run, done, ℕ, suc, ◌+◌, ◌≤◌, ◌<◌, ◌≡◌, ◌≢◌, refl, sym, ap, subst, ◌∙◌, List, [], length, drop,
  some, arith,
}
use protosocket.Codec.{Codec, Decoded}
use protosocket.Reactor.{MessageReactor, Stream}
use protosocket.Connection.State.{Connection, ReadBufferState, pending, disconnected}
use protosocket.Connection.Receive.{
  again, leave, return, on_decoded, decode_at, decode_round, shift_unread, decode_loop,
}
use protosocket.Connection.Receive.Cursor.{
  bytes_at, unread, IsValid, length-bytes_at, drop-bytes_at, slice?-bytes_at, Shifts,
  shift_unread-Shifts,
}
use protosocket.Connection.Receive.Consumes.{Consumes}

module _ {S D R B L : Type 0} where
  -- What the pass leaves alone.
  pub record Keeps (c c' : Connection S D R B L) : Type 0 where
    pub stream : c'.stream ≡ c.stream
    pub outbound_messages : c'.outbound_messages ≡ c.outbound_messages
    pub send_buffer : c'.send_buffer ≡ c.send_buffer
    pub max_buffer_length : c'.max_buffer_length ≡ c.max_buffer_length
    pub max_queued_send_messages : c'.max_queued_send_messages ≡ c.max_queued_send_messages
    pub buffer_allocation_increment : c'.buffer_allocation_increment ≡ c.buffer_allocation_increment
    pub receive_buffer : length c'.receive_buffer ≡ length c.receive_buffer

  abbrev pub with_codec : Connection S D R B L → D → R → Connection S D R B L
  with_codec c d r = record c { codec = d; reactor = r }

module _ {S D R B I O L : Type 0} (stream : Stream S) (codec : Codec D I O B)
    (reactor : MessageReactor R D B I O L) where
  -- The pass that stands at `cursor` ends as the specification says.
  pub record Reacts (c : Connection S D R B L) (cursor : ℕ) (state : ReadBufferState)
      (c' : Connection S D R B L) : Type 0 where
    pub rest : List ℕ
    pub consumes :
        Consumes codec reactor c.max_buffer_length c.codec c.reactor
          (bytes_at c cursor)
          state
          c'.codec
          c'.reactor
          rest
    pub parked : state ≡ pending → unread c' ≡ rest
    pub valid : IsValid c'
    pub keeps : Keeps c c'

  abbrev pub Reaction :
      Connection S D R B L → ℕ → Run (ReadBufferState × Connection S D R B L) → Type 0
  Reaction c cursor o =
      (state : ReadBufferState) × (c' : Connection S D R B L) × (o ≡ done (state, c'))
      × Reacts c cursor state c'

  module _ (fuel : ℕ) (cursor : ℕ) (c : Connection S D R B L) where
    pub round_again :
        (k : ℕ) (c' : Connection S D R B L)
        → decode_round stream codec reactor c cursor ≡ some (again k c')
        → decode_loop stream codec reactor (suc fuel) cursor c
          ≡ decode_loop stream codec reactor fuel k c'
    unfolding decode_loop
    round_again k c' e = rw (e, decode_loop)

    pub round_leave :
        (state : ReadBufferState) (k : ℕ) (c' : Connection S D R B L)
        → decode_round stream codec reactor c cursor ≡ some (leave state k c')
        → decode_loop stream codec reactor (suc fuel) cursor c ≡ shift_unread state k c'
    unfolding decode_loop
    round_leave state k c' e = rw (e, decode_loop)

    pub round_return :
        (state : ReadBufferState) (c' : Connection S D R B L)
        → decode_round stream codec reactor c cursor ≡ some (return state c')
        → decode_loop stream codec reactor (suc fuel) cursor c ≡ done (state, c')
    unfolding decode_loop
    round_return state c' e = rw (e, decode_loop)

  module _ (c : Connection S D R B L) (cursor : ℕ) (h : IsValid c) where
    pub decode_round_end :
        cursor ≡ c.receive_buffer_unread_index
        → decode_round stream codec reactor c cursor ≡ some (leave pending cursor c)
    unfolding decode_round
    decode_round_end e = ground arith

    decode_round_inside :
        cursor < c.receive_buffer_unread_index
        → decode_round stream codec reactor c cursor
          ≡ some (decode_at stream codec reactor c cursor (bytes_at c cursor))
    unfolding decode_round
    decode_round_inside lt = let e = slice?-bytes_at c cursor h (omega arith) in ground (arith, e)

    pub decode_round_decoded :
        (d : D) (out : Decoded I)
        → cursor < c.receive_buffer_unread_index
        → codec.decode c.codec (bytes_at c cursor) ≡ (d, out)
        → decode_round stream codec reactor c cursor
          ≡ some (on_decoded stream codec reactor (record c { codec = d }) cursor out)
    unfolding decode_at
    decode_round_decoded d out lt e = decode_round_inside lt ∙ rw e

    pub bytes_at-ne-nil : cursor < c.receive_buffer_unread_index → bytes_at c cursor ≢ []
    bytes_at-ne-nil lt e = omega (arith, ap length e, length-bytes_at c cursor h)

  Shifts-Keeps :
      (c : Connection S D R B L) (cursor : ℕ) (c' : Connection S D R B L)
      → Shifts c cursor c'
      → Keeps c c'
  Shifts-Keeps c cursor c' sh = record {
    stream = ap (λ (x : Connection S D R B L). x.stream) sh.frame;
    outbound_messages = ap (λ (x : Connection S D R B L). x.outbound_messages) sh.frame;
    send_buffer = ap (λ (x : Connection S D R B L). x.send_buffer) sh.frame;
    max_buffer_length = ap (λ (x : Connection S D R B L). x.max_buffer_length) sh.frame;
    max_queued_send_messages =
        ap (λ (x : Connection S D R B L). x.max_queued_send_messages) sh.frame;
    buffer_allocation_increment =
        ap (λ (x : Connection S D R B L). x.buffer_allocation_increment) sh.frame;
    receive_buffer = sh.same_length;
  }

  with_codec-Keeps : (c : Connection S D R B L) (d : D) (r : R) → Keeps c (with_codec c d r)
  with_codec-Keeps c d r = record {
    stream = refl;
    outbound_messages = refl;
    send_buffer = refl;
    max_buffer_length = refl;
    max_queued_send_messages = refl;
    buffer_allocation_increment = refl;
    receive_buffer = refl;
  }

  Keeps-with_codec :
      (c c' : Connection S D R B L) (d : D) (r : R) → Keeps (with_codec c d r) c' → Keeps c c'
  Keeps-with_codec c c' d r k = record {
    stream = k.stream;
    outbound_messages = k.outbound_messages;
    send_buffer = k.send_buffer;
    max_buffer_length = k.max_buffer_length;
    max_queued_send_messages = k.max_queued_send_messages;
    buffer_allocation_increment = k.buffer_allocation_increment;
    receive_buffer = k.receive_buffer;
  }

  module _ (c : Connection S D R B L) (cursor : ℕ) (h : IsValid c) (d : D) (r : R) where
    -- Out of the loop, parked, with the codec `d` and the reactor `r`.
    pub leave-Reaction :
        cursor ≤ c.receive_buffer_unread_index
        → Consumes codec reactor c.max_buffer_length c.codec c.reactor
            (bytes_at c cursor)
            pending
            d
            r
            (bytes_at c cursor)
        → Reaction c cursor (shift_unread pending cursor (with_codec c d r))
    leave-Reaction le con =
        let c1 = with_codec c d r in
        let valid : IsValid c1 = record { in_buffer = h.in_buffer; allocated = h.allocated } in
        let (c', e, sh) = shift_unread-Shifts pending c1 cursor valid le in
        (
          pending,
          c',
          e,
          record {
            rest = bytes_at c cursor;
            consumes =
                subst
                  (λ (x : Connection S D R B L).
                    Consumes codec reactor c.max_buffer_length c.codec c.reactor (bytes_at c cursor)
                      pending (x.codec) (x.reactor) (bytes_at c cursor))
                  (sym sh.frame) con;
            parked = λ _. sh.kept;
            valid = sh.valid;
            keeps = Keeps-with_codec c c' d r (Shifts-Keeps c1 cursor c' sh);
          },
        )

    pub return-Reaction :
        Consumes codec reactor c.max_buffer_length c.codec c.reactor
          (bytes_at c cursor)
          disconnected
          d
          r
          (bytes_at c cursor)
        → Reaction c cursor (done (disconnected, with_codec c d r))
    return-Reaction con = (
      disconnected,
      with_codec c d r,
      refl,
      record {
        rest = bytes_at c cursor;
        consumes = con;
        parked = λ e. cc;
        valid = record { in_buffer = h.in_buffer; allocated = h.allocated };
        keeps = with_codec-Keeps c d r;
      },
    )

    -- Round again, `n` bytes further on.
    pub again-Reaction :
        (n : ℕ) (o : Run (ReadBufferState × Connection S D R B L))
        → ((state : ReadBufferState) (d' : D) (r' : R) (rest : List ℕ)
            → Consumes codec reactor c.max_buffer_length d r
                (drop n (bytes_at c cursor))
                state
                d'
                r'
                rest
            → Consumes codec reactor c.max_buffer_length c.codec c.reactor
                (bytes_at c cursor)
                state
                d'
                r'
                rest)
        → Reaction (with_codec c d r) (cursor + n) o
        → Reaction c cursor o
    again-Reaction n o step (state, c', e, reacts) = (
      state,
      c',
      e,
      record {
        rest = reacts.rest;
        consumes =
            step state c'.codec c'.reactor reacts.rest
              (rw (drop-bytes_at c cursor n) reacts.consumes);
        parked = reacts.parked;
        valid = reacts.valid;
        keeps = Keeps-with_codec c c' d r reacts.keeps;
      },
    )
