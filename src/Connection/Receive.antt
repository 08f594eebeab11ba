-- ===== src/Connection/Receive.antt =====
-- protosocket-connection/src/connection.rs: reading from the stream, and reacting to its messages.
pub mod Cursor
pub mod Consumes
pub mod Reaction
pub mod Decode
pub mod Sides
pub mod Totality
pub mod Rounds
pub mod Polling
pub mod Faults
use protosocket.Prelude.{
  Run, done, panic, starved, ℕ, zero, suc, ◌+◌, ◌-◌, Bool, true, false, not, ◌&&◌, if◌then◌else◌,
  ltb, leb, ◌==◌, List, ◌++◌, length, take, drop, replicate, Option, none, some,
}
use protosocket.Prelude.Word.{add64}
use protosocket.Codec.{
  Codec, Decoded, message, refused, incomplete_buffer, invalid_buffer, skip_message, go_on,
  disconnect, would_block, interrupted, other,
}
use protosocket.Reactor.{MessageReactor, Stream, Io, finished, failed, waiting}
use protosocket.Connection.State.{
  Connection, ReadBufferState, pending, more_to_read, disconnected, error,
}

-- `&xs[a..b]`, which panics out of range.
unfoldable pub slice? : List ℕ → ℕ → ℕ → Option (List ℕ)
slice? xs a b = if leb a b && leb b (length xs) then some (take (b - a) (drop a xs)) else none

-- `xs.copy_within(a..b, 0)`, which panics out of range.
unfoldable pub copy_within? : List ℕ → ℕ → ℕ → Option (List ℕ)
unfolding slice?
copy_within? xs a b = elim (slice? xs a b) [ none ↦ none | some s ↦ some (s ++ drop (b - a) xs) ]

-- How one round of the decode loop goes on: round again with the cursor, out of the loop with its
-- state and the cursor, or out of the whole function.
pub data Flow (C : Type 0) : Type 0 where
  again : ℕ → C → Flow C
  leave : ReadBufferState → ℕ → C → Flow C
  return : ReadBufferState → C → Flow C

module _ {S D R B L : Type 0} where
  -- What follows the loop: the unread bytes move to the front of the buffer.
  unfoldable pub shift_unread :
      ReadBufferState → ℕ → Connection S D R B L → Run (ReadBufferState × Connection S D R B L)
  unfolding copy_within?
  shift_unread state buffer_cursor c =
      if not (buffer_cursor == 0) && buffer_cursor == c.receive_buffer_unread_index
      then done (state, record c { receive_buffer_unread_index = 0 })
      else (if not (buffer_cursor == 0)
          then elim (copy_within? c.receive_buffer buffer_cursor c.receive_buffer_unread_index) [
            | none ↦ panic
            | some buffer ↦ done (
              state,
              record c {
                receive_buffer = buffer;
                receive_buffer_unread_index = c.receive_buffer_unread_index - buffer_cursor;
              },
            )
          ]
          else done (state, c))

  -- The match on what the stream gave; the bytes stand in the buffer, behind the unread ones.
  unfoldable pub on_read :
      Connection S D R B L → Io (List ℕ) → ReadBufferState × Connection S D R B L
  on_read c (finished bytes) =
      let distance = length bytes in
      let unread = c.receive_buffer_unread_index in
      if distance == 0 then (disconnected, c) else (
        more_to_read,
        record c {
          receive_buffer =
              take unread c.receive_buffer ++ bytes ++ drop (unread + distance) c.receive_buffer;
          receive_buffer_unread_index = add64 unread distance;
        },
      )
  on_read c (failed would_block) = (pending, c)
  on_read c (failed interrupted) = (more_to_read, c)
  on_read c (failed other) = (error, c)
  on_read c waiting = (pending, c)

  -- The growth of the buffer. The subtraction is exact while the unread bytes lie in the buffer.
  unfoldable pub grow : Connection S D R B L → Connection S D R B L
  grow c =
      let size = length c.receive_buffer in
      if ltb size c.max_buffer_length
        && ltb (size - c.receive_buffer_unread_index) c.buffer_allocation_increment
      then record c {
        receive_buffer = c.receive_buffer ++ replicate c.buffer_allocation_increment 0;
      }
      else c

module _ {S D R B I O L : Type 0} (stream : Stream S) (codec : Codec D I O B)
    (reactor : MessageReactor R D B I O L) where
  -- The match on what the codec made of the buffer.
  unfoldable pub on_decoded : Connection S D R B L → ℕ → Decoded I → Flow (Connection S D R B L)
  on_decoded c buffer_cursor (message length m) =
      let (r, status) = reactor.on_inbound_message c.reactor m in
      let c' = record c { reactor = r } in
      elim status [
        | disconnect ↦ return disconnected c'
        | go_on ↦ again (add64 buffer_cursor length) c'
      ]
  on_decoded c buffer_cursor (refused (incomplete_buffer next_message_size)) =
      if ltb c.max_buffer_length next_message_size
      then return disconnected c
      else leave pending buffer_cursor c
  on_decoded c buffer_cursor (refused invalid_buffer) = return disconnected c
  on_decoded c buffer_cursor (refused (skip_message distance)) =
      if ltb (c.receive_buffer_unread_index - buffer_cursor) distance
      then leave pending buffer_cursor c
      else again (add64 buffer_cursor distance) c

  unfoldable pub decode_at : Connection S D R B L → ℕ → List ℕ → Flow (Connection S D R B L)
  unfolding on_decoded
  decode_at c buffer_cursor buffer =
      let (d, out) = codec.decode c.codec buffer in
      on_decoded (record c { codec = d }) buffer_cursor out

  -- One round of the loop; `none` is the panic of the slice.
  unfoldable pub decode_round : Connection S D R B L → ℕ → Option (Flow (Connection S D R B L))
  unfolding decode_at slice?
  decode_round c buffer_cursor =
      if buffer_cursor == c.receive_buffer_unread_index
      then some (leave pending buffer_cursor c)
      else (if ltb c.receive_buffer_unread_index buffer_cursor
          then some (leave error buffer_cursor c)
          else elim (slice? c.receive_buffer buffer_cursor c.receive_buffer_unread_index) [
            | none ↦ none
            | some buffer ↦ some (decode_at c buffer_cursor buffer)
          ])

  unfoldable pub decode_loop :
      ℕ → ℕ → Connection S D R B L → Run (ReadBufferState × Connection S D R B L)
  unfolding decode_round shift_unread
  decode_loop zero buffer_cursor c = starved
  decode_loop (suc fuel) buffer_cursor c = elim (decode_round c buffer_cursor) [
    | none ↦ panic
    | some flow ↦ elim flow [
      | again cursor c' ↦ decode_loop fuel cursor c'
      | leave state cursor c' ↦ shift_unread state cursor c'
      | return state c' ↦ done (state, c')
    ]
  ]

  unfoldable pub read_inbound_messages_and_react :
      ℕ → Connection S D R B L → Run (ReadBufferState × Connection S D R B L)
  unfolding decode_loop
  read_inbound_messages_and_react fuel c = decode_loop fuel 0 c

  unfoldable pub poll_read_from_stream :
      Connection S D R B L → ReadBufferState × Connection S D R B L
  unfolding on_read
  poll_read_from_stream c =
      let room = length c.receive_buffer - c.receive_buffer_unread_index in
      let (s, out) = stream.poll_read c.stream room in on_read (record c { stream = s }) out

  unfoldable pub read_if_room : Connection S D R B L → ReadBufferState × Connection S D R B L
  unfolding poll_read_from_stream
  read_if_room c =
      if ltb 0 (length c.receive_buffer - c.receive_buffer_unread_index)
      then poll_read_from_stream c
      else (more_to_read, c)

  unfoldable pub poll_read_inbound : Connection S D R B L → ReadBufferState × Connection S D R B L
  unfolding grow read_if_room
  poll_read_inbound c = read_if_room (grow c)

  -- `Poll::Ready(())` is `true`. The inner loop has its own fuel, `rounds`.
  unfoldable pub poll_receive : ℕ → ℕ → Connection S D R B L → Run (Bool × Connection S D R B L)
  poll_receive rounds zero c = starved
  poll_receive rounds (suc fuel) c =
      let (state, c') = poll_read_inbound c in
      elim state [
        | pending ↦ done (false, c')
        | disconnected ↦ done (true, c')
        | error ↦ done (true, c')
        | more_to_read ↦ elim (read_inbound_messages_and_react rounds c') [
          | starved ↦ starved
          | panic ↦ panic
          | done (state', c'') ↦ elim state' [
            | pending ↦ poll_receive rounds fuel c''
            | more_to_read ↦ poll_receive rounds fuel c''
            | disconnected ↦ done (true, c'')
            | error ↦ done (true, c'')
          ]
        ]
      ]
