-- ===== src/Connection/Send.antt =====
-- protosocket-connection/src/connection.rs: serializing messages, writing them to the stream, and one
-- poll of the whole connection.
pub mod Wire
pub mod Sides
pub mod Draining
pub mod Serialize
pub mod Attempts
pub mod Writing
pub mod Closing
use protosocket.Prelude.{
  Poll, ready, pending, Run, done, panic, starved, ◌>>=◌, ℕ, zero, suc, ◌+◌, ◌-◌, Bool, true, false,
  ◌&&◌, if◌then◌else◌, ltb, leb, ◌==◌, List, [], ◌∷◌, ◌++◌, length, Option, none, some,
}
use protosocket.Prelude.Word.{sub64}
use protosocket.Codec.{Codec, IoError, would_block, interrupted, other}
use protosocket.SendBudget.{SendBudget}
use protosocket.SendBudget
use protosocket.Reactor.{MessageReactor, Stream, Buf, Io, finished, failed, waiting}
use protosocket.Spillway.Receiver.{poll_next}
use protosocket.Connection.State.{Connection}
use protosocket.Connection.Receive.{poll_receive}

-- `Result<bool, Error>`: whether the connection is to close, or an error of the stream.
pub data Written : Type 0 where
  ok : Bool → Written
  err : Written

abbrev pub uio_maxiov : ℕ
uio_maxiov = 256

module _ {S D R B I O L : Type 0} (stream : Stream S) (buf : Buf B) (codec : Codec D I O B)
    (reactor : MessageReactor R D B I O L) where
  -- A message of the queue: the reactor sees it, the codec encodes it, and it is queued for the wire.
  unfoldable pub enqueue : Connection S D R B L → L → Connection S D R B L
  enqueue c m =
      let (r, m') = reactor.on_outbound_message c.reactor m in
      let (d, buffer) = codec.encode c.codec m' in
      record c { reactor = r; codec = d; send_buffer = c.send_buffer ++ buffer ∷ [] }

  -- The loop over the queue. Each round but the last adds one buffer, so `max_outbound` rounds do.
  -- Whether the queue is closed is returned.
  unfoldable pub drain_queue : ℕ → Connection S D R B L → Run (Bool × Connection S D R B L)
  drain_queue zero c = done (false, c)
  drain_queue (suc rounds) c = elim (poll_next c.outbound_messages) [
    | none ↦ panic
    | some (p, queue) ↦
        let c' = record c { outbound_messages = queue } in
        elim p [
          | ready next ↦ elim next [
            | some m ↦ drain_queue rounds (enqueue c' m)
            | none ↦ done (true, c')
          ]
          | pending ↦ done (false, c')
        ]
  ]

  abbrev pub is_finished : Poll (Option (Unit {0})) → Bool
  is_finished (ready none) = true
  is_finished _ = false

  -- The reactor's turn, with the room that is left. `Poll::Ready(())` is `true`.
  unfoldable pub ask_reactor : ℕ → Bool × Connection S D R B L → Bool × Connection S D R B L
  unfolding SendBudget.new
  ask_reactor remaining (queue_closed, c) =
      if ltb 0 remaining
      then (let (r, outbound, state) =
            reactor.poll_outbound_many c.reactor (SendBudget.new c.codec c.send_buffer remaining) in
          (
            queue_closed && is_finished state,
            record c { reactor = r; codec = outbound.encoder; send_buffer = outbound.send_buffer },
          ))
      else (false, c)

  unfoldable pub poll_serialize_outbound_messages :
      Connection S D R B L → Run (Bool × Connection S D R B L)
  unfolding drain_queue ask_reactor
  poll_serialize_outbound_messages c =
      let start_len = length c.send_buffer in
      let max_outbound = sub64 c.max_queued_send_messages start_len in
      if max_outbound == 0
      then done (false, c)
      else (drain_queue max_outbound c >>= λ o.
          done (ask_reactor (max_outbound - (length o.1.send_buffer - start_len)) o))

  -- The slices of one vectored write.
  unfoldable pub gather : List B → ℕ → List (List ℕ)
  gather [] filled = []
  gather (b ∷ bs) filled =
      let chunks = buf.chunks_vectored b (uio_maxiov - filled) in
      let rest = gather bs (filled + length chunks) in
      if leb uio_maxiov filled then [] else (if length chunks == 0 then [] else chunks ++ rest)

  -- The send buffer after `written` bytes of it are on the wire, and the codec that got the buffers
  -- back.
  unfoldable pub advance_buffers : ℕ → D → List B → D × List B
  advance_buffers written d [] = (d, [])
  advance_buffers written d (front ∷ bs) =
      let remaining = buf.remaining front in
      let rest = advance_buffers (written - remaining) (codec.return_buffer d front) bs in
      if ltb 0 written
      then (if leb remaining written then rest else (d, buf.advance front written ∷ bs))
      else (d, front ∷ bs)

  unfoldable pub advance_send_buffers : Connection S D R B L → ℕ → Connection S D R B L
  unfolding advance_buffers
  advance_send_buffers c total_written =
      let (d, bs) = advance_buffers total_written c.codec c.send_buffer in
      record c { codec = d; send_buffer = bs }

  -- What one write or flush decides: the result, or round again (`none`).
  unfoldable pub on_error : IoError → Option Written
  on_error would_block = none
  on_error interrupted = none
  on_error other = some err

  unfoldable pub on_written : Io ℕ → Connection S D R B L → Option Written × Connection S D R B L
  unfolding on_error
  on_written waiting c = (some (ok false), c)
  on_written (finished written) c =
      if written == 0 then (some (ok true), c) else (none, advance_send_buffers c written)
  on_written (failed e) c = (on_error e, c)

  unfoldable pub write_once : Connection S D R B L → Option Written × Connection S D R B L
  unfolding on_written
  write_once c =
      let (s, out) = stream.poll_write_vectored c.stream (gather c.send_buffer 0) in
      on_written out (record c { stream = s })

  unfoldable pub on_flushed : Io (Unit {0}) → Option Written
  unfolding on_error
  on_flushed waiting = some (ok false)
  on_flushed (finished _) = some (ok false)
  on_flushed (failed e) = on_error e

  unfoldable pub flush_once : Connection S D R B L → Option Written × Connection S D R B L
  flush_once c =
      let (s, out) = stream.poll_flush c.stream in (on_flushed out, record c { stream = s })

  unfoldable pub write_or_flush : Connection S D R B L → Option Written × Connection S D R B L
  write_or_flush c = if length c.send_buffer == 0 then flush_once c else write_once c

  unfoldable pub poll_writev_buffers :
      ℕ → Connection S D R B L → Run (Written × Connection S D R B L)
  poll_writev_buffers zero c = starved
  poll_writev_buffers (suc fuel) c = elim (poll_serialize_outbound_messages c) [
    | starved ↦ starved
    | panic ↦ panic
    | done (over, c') ↦
        if over
        then done (ok true, c')
        else (let (result, c'') = write_or_flush c' in
            let again = poll_writev_buffers fuel c'' in
            elim result [ none ↦ again | some w ↦ done (w, c'') ])
  ]

  abbrev pub closes : Written → Bool
  closes (ok over) = over
  closes err = true

  -- `Future::poll`: `Poll::Ready(())` is `true`. `rounds` and `fuel` bound the loops.
  unfoldable pub poll : ℕ → ℕ → Connection S D R B L → Run (Bool × Connection S D R B L)
  poll rounds fuel c = elim (poll_receive stream codec reactor rounds fuel c) [
    | starved ↦ starved
    | panic ↦ panic
    | done (over, c') ↦
        let (r, stop) = reactor.poll c'.reactor in
        let written = poll_writev_buffers fuel (record c' { reactor = r }) in
        if over
        then done (true, c')
        else (if stop
            then done (true, record c' { reactor = r })
            else (written >>= λ o. done (closes (o.0), o.1)))
  ]
