-- ===== src/Connection/Receive/Polling.antt =====
-- One poll of the receiving half ends (protosocket-connection/src/connection.rs, poll_receive).
use protosocket.Prelude.{
  Run, done, ℕ, zero, suc, ◌+◌, ◌^◌, ◌≤◌, ◌<◌, ◌≡◌, ◌⊎◌, inl, inr, refl, sym, ap, subst, ◌∙◌, Bool,
  true, false, length, arith, length-take,
}
use protosocket.Codec.{Codec}
use protosocket.Reactor.{MessageReactor, Stream}
use protosocket.Connection.State.{Connection, ReadBufferState, pending, more_to_read, disconnected}
use protosocket.Connection.Receive.{
  grow, read_if_room, poll_read_inbound, read_inbound_messages_and_react, poll_receive,
}
use protosocket.Connection.Receive.Cursor.{IsValid}
use protosocket.Connection.Receive.Consumes.{IsHonest, Consumes-state, Consumes-short}
use protosocket.Connection.Receive.Reaction.{Reacts}
use protosocket.Connection.Receive.Decode.{read_inbound_messages_and_react-Reaction}
use protosocket.Connection.Receive.Sides.{Sides, Sides-trans, Keeps-Sides, poll_read_inbound-Sides}
use protosocket.Connection.Receive.Totality.{
  Waits, IsFinite, IsReady, grow-HasSpace, grow-frame, Attempt, parks, ends, retries, reads,
  read_if_room-Attempt,
}
use protosocket.Connection.Receive.Rounds.{
  poll_receive_parked, poll_receive_closed, poll_receive_again, poll_receive_cut,
}

module _ {S D R B I O L : Type 0} (stream : Stream S) (codec : Codec D I O B)
    (reactor : MessageReactor R D B I O L) (rounds : ℕ) where
  -- The poll of `c` ends with no change to the sending half, and leaves a connection that lives ready
  -- for the next one, with its stream to be woken for more.
  abbrev pub Ends : Connection S D R B L → Run (Bool × Connection S D R B L) → Type 0
  Ends c o =
      (over : Bool) × (c' : Connection S D R B L) × (o ≡ done (over, c'))
      × Sides stream c c'
      × (over ≡ false → IsReady c' × Waits stream c'.stream)

  -- A connection in the middle of a poll, with its two limits.
  record Loaded (max inc : ℕ) (c : Connection S D R B L) : Type 0 where
    valid : IsValid c
    bounded : length c.receive_buffer < max + inc
    longest : c.max_buffer_length ≡ max
    step : c.buffer_allocation_increment ≡ inc

  module _ (left : S → ℕ) (finite : IsFinite stream left) (max inc : ℕ)
      (honest : IsHonest codec max) (sized : max + inc < 2 ^ 63) (grows : 0 < inc) (pos : 0 < max)
      (enough : max + inc ≤ rounds) where
    Polls : ℕ → Type 0
    Polls fuel =
        (c : Connection S D R B L)
        → IsReady c
        → c.max_buffer_length ≡ max
        → c.buffer_allocation_increment ≡ inc
        → left c.stream < fuel
        → Ends c (poll_receive stream codec reactor rounds fuel c)

    parked-IsReady :
        (c c' : Connection S D R B L)
        → Loaded max inc c
        → Reacts stream codec reactor c 0 pending c'
        → IsReady c' × (c'.max_buffer_length ≡ max) × (c'.buffer_allocation_increment ≡ inc)
    parked-IsReady c c' load reacts =
        let k = reacts.keeps in
        let short =
          Consumes-short codec reactor c.max_buffer_length (rw load.longest honest)
            (rw load.longest pos) reacts.consumes refl in
        let index = ap length (reacts.parked refl) in
        let front = length-take c'.receive_buffer_unread_index c'.receive_buffer in
        let inside = reacts.valid.in_buffer in
        (
          record {
            in_buffer = inside;
            short = omega (arith, k.max_buffer_length, load.longest, short, index, front, inside);
            bounded = omega (
              arith, k.max_buffer_length, k.buffer_allocation_increment, k.receive_buffer,
              load.bounded, load.longest, load.step,
            );
            grows = omega (arith, k.buffer_allocation_increment, load.step);
            sized = omega (
              arith, k.max_buffer_length, k.buffer_allocation_increment, load.longest, load.step,
            );
          },
          k.max_buffer_length ∙ load.longest,
          k.buffer_allocation_increment ∙ load.step,
        )

    -- Bytes are there, or the read was interrupted: a pass, and another round.
    pass_Ends :
        (fuel : ℕ) (c c' : Connection S D R B L)
        → Polls fuel
        → Loaded max inc c'
        → left c'.stream < fuel
        → poll_read_inbound stream codec reactor c ≡ (more_to_read, c')
        → Ends c (poll_receive stream codec reactor rounds (suc fuel) c)
    unfolding Polls
    pass_Ends fuel c c' ih load lt e =
        let sides =
          subst (λ o. Sides stream c o.1) e (poll_read_inbound-Sides stream codec reactor c) in
        let (state, c'', eq, reacts) =
          read_inbound_messages_and_react-Reaction stream codec reactor rounds c' load.valid
            (rw load.longest honest) (omega (arith, load.valid.in_buffer, load.bounded)) in
        finish state c'' eq reacts
          (Sides-trans stream sides (Keeps-Sides stream c' c'' reacts.keeps))
          (Consumes-state codec reactor c'.max_buffer_length reacts.consumes)
      where
        finish :
            (state : ReadBufferState) (c'' : Connection S D R B L)
            → read_inbound_messages_and_react stream codec reactor rounds c' ≡ done (state, c'')
            → Reacts stream codec reactor c' 0 state c''
            → Sides stream c c''
            → (state ≡ pending) ⊎ (state ≡ disconnected)
            → Ends c (poll_receive stream codec reactor rounds (suc fuel) c)
        finish state c'' eq reacts sides (inl p) =
            let reacts' = subst (λ s. Reacts stream codec reactor c' 0 s c'') p reacts in
            let (ready, longest, step) = parked-IsReady c' c'' load reacts' in
            let (over, c3, run, sides', lives) =
              ih c'' ready longest step (omega (arith, ap left reacts.keeps.stream)) in
            (
              over,
              c3,
              poll_receive_again stream codec reactor rounds fuel c c' c'' e
                    (eq ∙ ap (λ s. done (s, c'')) p)
                  ∙ run,
              Sides-trans stream sides sides',
              lives,
            )
        finish state c'' eq reacts sides (inr p) = (
          true,
          c'',
          poll_receive_cut stream codec reactor rounds fuel c c' c'' e
              (eq ∙ ap (λ s. done (s, c'')) p),
          sides,
          λ f. cc,
        )

    grown-Loaded :
        (c : Connection S D R B L)
        → IsReady c
        → c.max_buffer_length ≡ max
        → c.buffer_allocation_increment ≡ inc
        → Loaded max inc (grow c)
          × ((grow c).receive_buffer_unread_index < max)
          × ((grow c).receive_buffer_unread_index < length (grow c).receive_buffer)
          × ((grow c).stream ≡ c.stream)
    grown-Loaded c h longest step =
        let sp = grow-HasSpace c h in
        let fr = grow-frame c in
        (
          record {
            valid = record {
              in_buffer = omega (arith, sp.space);
              allocated =
                  omega (arith, sp.bounded, fr.max_buffer_length, fr.buffer_allocation_increment);
            };
            bounded =
                omega (arith, sp.bounded, fr.max_buffer_length, fr.buffer_allocation_increment);
            longest = fr.max_buffer_length ∙ longest;
            step = fr.buffer_allocation_increment ∙ step;
          },
          omega (arith, h.short, fr.unread_index),
          sp.space,
          fr.stream,
        )

    attempted_Ends :
        (fuel : ℕ) (c c1 c' : Connection S D R B L) (state : ReadBufferState)
        → Polls fuel
        → Loaded max inc c1
        → c1.receive_buffer_unread_index < max
        → left c1.stream < suc fuel
        → poll_read_inbound stream codec reactor c ≡ (state, c')
        → Sides stream c c'
        → Attempt stream left c1 state c'
        → Ends c (poll_receive stream codec reactor rounds (suc fuel) c)
    attempted_Ends fuel c c1 c' state ih load short lt e sides (parks p fr waits) = (
      false,
      c',
      poll_receive_parked stream codec reactor rounds fuel c c' (e ∙ ap (λ s. (s, c')) p),
      sides,
      λ _. (
        subst IsReady (sym fr) (record {
          in_buffer = load.valid.in_buffer;
          short = omega (arith, load.longest);
          bounded = omega (arith, load.bounded, load.longest, load.step);
          grows = omega (arith, load.step);
          sized = omega (arith, load.longest, load.step);
        }),
        waits,
      ),
    )
    attempted_Ends fuel c c1 c' state ih load short lt e sides (ends p) = (
      true,
      c',
      poll_receive_closed stream codec reactor rounds fuel c c' state p e,
      sides,
      λ f. cc,
    )
    attempted_Ends fuel c c1 c' state ih load short lt e sides (retries p fr fewer) =
        pass_Ends fuel c c' ih
          (subst (Loaded max inc) (sym fr) (record {
            valid = record { in_buffer = load.valid.in_buffer; allocated = load.valid.allocated };
            bounded = load.bounded;
            longest = load.longest;
            step = load.step;
          }))
          (omega (arith, fewer)) (e ∙ ap (λ s. (s, c')) p)
    attempted_Ends fuel c c1 c' state ih load short lt e sides (reads bytes p rec fr fewer) =
        pass_Ends fuel c c' ih
          (subst (Loaded max inc) (sym fr) (record {
            valid = record {
              in_buffer = rec.inside;
              allocated = omega (arith, rec.size, load.valid.allocated);
            };
            bounded = omega (arith, rec.size, load.bounded);
            longest = load.longest;
            step = load.step;
          }))
          (omega (arith, fewer)) (e ∙ ap (λ s. (s, c')) p)

    Polls-all : (fuel : ℕ) → Polls fuel
    unfolding Polls poll_read_inbound
    Polls-all zero c h longest step lt = absurd (omega arith)
    Polls-all (suc fuel) c h longest step lt =
        let (load, short, space, same) = grown-Loaded c h longest step in
        attempted_Ends fuel c (grow c) (read_if_room stream codec reactor (grow c)).1
          (read_if_room stream codec reactor (grow c)).0 (Polls-all fuel) load short
          (omega (arith, ap left same)) refl (poll_read_inbound-Sides stream codec reactor c)
          (read_if_room-Attempt stream left codec reactor finite (grow c) load.valid.in_buffer
            load.valid.allocated space)

  -- A poll of the receiving half ends, for an honest codec and a stream that answers `left` more
  -- reads at most before it waits: with more fuel than that, and as many rounds for each pass as the
  -- buffer can hold bytes, it neither panics nor spins, and the queue, the send buffer and its limit
  -- are as before, and the stream as reads alone leave it. If it does not close the connection, a
  -- read answered that the stream is to be woken for more or would block, and the connection is ready
  -- for the next poll: fewer unread bytes than the longest message, and a receive buffer below
  -- `max_buffer_length + buffer_allocation_increment` bytes.
  pub poll_receive-Ends :
      (left : S → ℕ) (fuel : ℕ) (c : Connection S D R B L)
      → IsFinite stream left
      → IsHonest codec c.max_buffer_length
      → IsReady c
      → c.max_buffer_length + c.buffer_allocation_increment ≤ rounds
      → left c.stream < fuel
      → Ends c (poll_receive stream codec reactor rounds fuel c)
  unfolding Polls
  poll_receive-Ends left fuel c finite honest h enough lt =
      Polls-all left finite c.max_buffer_length c.buffer_allocation_increment honest h.sized h.grows
        (omega (arith, h.short)) enough fuel c h refl refl lt
