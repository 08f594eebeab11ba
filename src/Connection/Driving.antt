-- ===== src/Connection/Driving.antt =====
-- One poll of the whole connection (protosocket-connection/src/connection.rs, Future::poll).
use protosocket.Prelude.{
  done, ℕ, ◌+◌, ◌^◌, ◌≤◌, ◌<◌, ◌≡◌, ◌⊎◌, inl, inr, refl, sym, ap, subst, ◌∙◌, Bool, true, false,
  Bool-cases, List, [], ◌++◌, length, arith, append-nil,
}
use protosocket.Codec.{Codec}
use protosocket.Reactor.{MessageReactor, Stream, Buf}
use protosocket.Spillway.Receiver.Validity.{stored, IsValid}
use protosocket.Connection.State.{Connection}
use protosocket.Connection.Receive.{poll_receive}
use protosocket.Connection.Receive.Consumes.{IsHonest}
use protosocket.Connection.Receive.Sides.{Reads, no_read, then_read, Sides}
use protosocket.Connection.Receive.Totality.{IsFinite, IsReady, Waits}
use protosocket.Connection.Receive.Polling.{poll_receive-Ends}
use protosocket.Connection.Send.{Written, ok, err, closes, poll_writev_buffers, poll}
use protosocket.Connection.Send.Wire.{wire, IsContiguous}
use protosocket.Connection.Send.Sides.{Receiving, receiving, Rests}
use protosocket.Connection.Send.Draining.{IsThrifty}
use protosocket.Connection.Send.Attempts.{IsWritable, output}
use protosocket.Connection.Send.Writing.{Writes, poll_writev_buffers-Writes}

-- The two directions of a stream are apart: reading sends nothing, and readies it for no more writes.
pub record IsDuplex {S : Type 0} (stream : Stream S) (sent : S → List ℕ) (left : S → ℕ)
    : Type 0 where
  pub silent : (s : S) (room : ℕ) → sent (stream.poll_read s room).0 ≡ sent s
  pub fewer : (s : S) (room : ℕ) → left (stream.poll_read s room).0 ≤ left s

module _ {S : Type 0} (stream : Stream S) (sent : S → List ℕ) (left : S → ℕ)
    (duplex : IsDuplex stream sent left) where
  Reads-sent : {s s' : S} → Reads stream s s' → sent s' ≡ sent s
  Reads-sent no_read = refl
  Reads-sent (then_read {s = s} room more) = Reads-sent more ∙ duplex.silent s room

  Reads-left : {s s' : S} → Reads stream s s' → left s' ≤ left s
  Reads-left no_read = omega arith
  Reads-left (then_read {s = s} room more) = omega (arith, Reads-left more, duplex.fewer s room)

module _ {S D R B L : Type 0} where
  -- What holds of a connection between its polls.
  pub record IsLive (c : Connection S D R B L) : Type 0 where
    pub ready : IsReady c
    pub valid : IsValid c.outbound_messages
    pub queued : length c.send_buffer ≤ c.max_queued_send_messages
    pub word : c.max_queued_send_messages < 2 ^ 64

  receiving-IsReady :
      (c c' : Connection S D R B L) → receiving c' ≡ receiving c → IsReady c → IsReady c'
  receiving-IsReady c c' e h =
      let buffer = ap (λ (x : Receiving). length x.0) e in
      let index = ap (λ (x : Receiving). x.1) e in
      let max = ap (λ (x : Receiving). x.2) e in
      let inc = ap (λ (x : Receiving). x.3) e in
      record {
        in_buffer = omega (arith, h.in_buffer, buffer, index);
        short = omega (arith, h.short, index, max);
        bounded = omega (arith, h.bounded, buffer, max, inc);
        grows = omega (arith, h.grows, inc);
        sized = omega (arith, h.sized, max, inc);
      }

module _ {S D R B I O L : Type 0} (stream : Stream S) (buf : Buf B) (codec : Codec D I O B)
    (reactor : MessageReactor R D B I O L) (rounds fuel : ℕ) where
  abbrev polled : Connection S D R B L → Connection S D R B L
  polled c = record c { reactor = (reactor.poll c.reactor).0 }

  module _ (c c' : Connection S D R B L) where
    poll_over :
        poll_receive stream codec reactor rounds fuel c ≡ done (true, c')
        → poll stream buf codec reactor rounds fuel c ≡ done (true, c')
    unfolding poll
    poll_over e = ground (arith, e)

    poll_stops :
        poll_receive stream codec reactor rounds fuel c ≡ done (false, c')
        → (reactor.poll c'.reactor).1 ≡ true
        → poll stream buf codec reactor rounds fuel c ≡ done (true, polled c')
    unfolding poll
    poll_stops e stop = ground (arith, e, stop)

    poll_writes :
        (w : Written) (c'' : Connection S D R B L)
        → poll_receive stream codec reactor rounds fuel c ≡ done (false, c')
        → (reactor.poll c'.reactor).1 ≡ false
        → poll_writev_buffers stream buf codec reactor fuel (polled c') ≡ done (w, c'')
        → poll stream buf codec reactor rounds fuel c
          ≡ done (closes stream buf codec reactor w, c'')
    unfolding poll
    poll_writes w c'' e go f = ground (arith, e, go, f)

  module _ (contents : B → List ℕ) (law : IsContiguous buf contents) (sent : S → List ℕ)
      (left : S → ℕ) (writable : IsWritable stream sent left)
      (duplex : IsDuplex stream sent left) where
    -- What the peer has, and what it is still to get.
    abbrev sends : Connection S D R B L → List ℕ
    sends = output stream buf codec reactor contents law sent left writable

    -- The poll of `c` parked in `c'`: a read waits for more bytes, what can be written is written, and
    -- a message is left in the queue only if the send buffer is full.
    abbrev pub Parks : Connection S D R B L → Connection S D R B L → Type 0
    Parks c c' =
        ((s : S) × Reads stream c.stream s × Waits stream s)
        × Rests stream buf codec reactor c'
        × ((stored c'.outbound_messages ≡ 0)
            ⊎ (length c'.send_buffer ≡ c'.max_queued_send_messages))

    pub Drives : Connection S D R B L → Type 0
    Drives c =
        (over : Bool) × (c' : Connection S D R B L) × (added : List B) × (poll stream buf codec
            reactor rounds fuel c
          ≡ done (over, c'))
        × (sends c' ≡ sends c ++ wire contents added)
        × (over ≡ false → IsLive c' × Parks c c')

    Sides-sends : (c c' : Connection S D R B L) → Sides stream c c' → sends c' ≡ sends c ++ []
    Sides-sends c c' k =
        ap (λ l. l ++ wire contents c'.send_buffer) (Reads-sent stream sent left duplex k.reads)
        ∙ ap (λ b. sent c.stream ++ wire contents b) k.send_buffer
        ∙ sym (append-nil (sends c))

    closes-false : (w : Written) → closes stream buf codec reactor w ≡ false → w ≡ ok false
    closes-false (ok true) e = absurd (ground (arith, e))
    closes-false (ok false) e = refl
    closes-false err e = absurd (ground (arith, e))

    module _ (thrifty : IsThrifty stream buf codec reactor) where
      -- The reactor lets the connection live, and it is written to.
      written-Drives :
          (c c' : Connection S D R B L)
          → IsLive c
          → poll_receive stream codec reactor rounds fuel c ≡ done (false, c')
          → Sides stream c c'
          → IsReady c'
          → Waits stream c'.stream
          → left c.stream < fuel
          → (reactor.poll c'.reactor).1 ≡ false
          → Drives c
      unfolding Drives Writes
      written-Drives c c' h run k ready waits lt go =
          let (w, c'', added, run', out, bounded, valid, received, rests) =
            poll_writev_buffers-Writes stream buf codec reactor contents law sent left writable
              thrifty fuel (polled c') (subst IsValid (sym k.outbound_messages) h.valid)
              (omega (arith, ap length k.send_buffer, k.max_queued_send_messages, h.queued))
              (omega (arith, k.max_queued_send_messages, h.word))
              (omega (arith, Reads-left stream sent left duplex k.reads, lt)) in
          let limit = ap (λ (x : Receiving). x.4) received in
          (
            closes stream buf codec reactor w,
            c'',
            added,
            poll_writes c c' w c'' run go run',
            out ∙ ap (λ l. l ++ wire contents added) (Sides-sends c c' k ∙ append-nil (sends c)),
            λ e.
                let (rest, full) = rests (closes-false w e) in
                (
                  record {
                    ready = receiving-IsReady (polled c') c'' received (record {
                      in_buffer = ready.in_buffer;
                      short = ready.short;
                      bounded = ready.bounded;
                      grows = ready.grows;
                      sized = ready.sized;
                    });
                    valid = valid;
                    queued = omega (arith, bounded, limit);
                    word = omega (arith, limit, k.max_queued_send_messages, h.word);
                  },
                  (
                    (c'.stream, k.reads, waits),
                    rest,
                    elim full [ inl e ↦ inl e | inr e ↦ inr (e ∙ sym limit) ],
                  ),
                ),
          )

      received-Drives :
          (c c' : Connection S D R B L) (over : Bool)
          → IsLive c
          → poll_receive stream codec reactor rounds fuel c ≡ done (over, c')
          → Sides stream c c'
          → (over ≡ false → IsReady c' × Waits stream c'.stream)
          → left c.stream < fuel
          → Drives c
      unfolding Drives
      received-Drives c c' true h run k lives lt =
          (true, c', [], poll_over c c' run, Sides-sends c c' k, λ f. cc)
      received-Drives c c' false h run k lives lt = elim (Bool-cases (reactor.poll c'.reactor).1) [
        | inl stop ↦ (true, polled c', [], poll_stops c c' run stop, Sides-sends c c' k, λ f. cc)
        | inr go ↦ written-Drives c c' h run k (lives refl).0 (lives refl).1 lt go
      ]

      -- A poll of a live connection ends, without a panic, for an honest codec, buffers of one
      -- chunk, as those of PooledEncoder and of OwnedBuffer are, a reactor that keeps to its
      -- budget, and a stream whose directions are apart and that waits after finitely many reads
      -- and writes, with more fuel than these and as many rounds for each pass as the receive
      -- buffer can hold bytes. What the peer has, followed by the bytes that are queued for it, is
      -- what it was before, followed by the bytes of the buffers that were added. If the poll is
      -- pending, the connection is live again, the read and the write have each said that they are
      -- to be woken, unless all is written and flushed, and a message is left in the queue only if
      -- the send buffer is full.
      pub poll-Drives :
          (left_to_read : S → ℕ) (c : Connection S D R B L)
          → IsFinite stream left_to_read
          → IsHonest codec c.max_buffer_length
          → IsLive c
          → c.max_buffer_length + c.buffer_allocation_increment ≤ rounds
          → left_to_read c.stream < fuel
          → left c.stream < fuel
          → Drives c
      poll-Drives left_to_read c finite honest h enough lt lt' =
          let (over, c', run, k, lives) =
            poll_receive-Ends stream codec reactor rounds left_to_read fuel c finite honest h.ready
              enough lt in
          received-Drives c c' over h run k lives lt'
