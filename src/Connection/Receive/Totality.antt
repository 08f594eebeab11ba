-- ===== src/Connection/Receive/Totality.antt =====
-- One poll of the receiving half ends (protosocket-connection/src/connection.rs, poll_receive).
use protosocket.Prelude.{
  ℕ, ◌+◌, ◌-◌, ◌^◌, ◌≤◌, ◌<◌, ◌≡◌, ◌≢◌, ◌⊎◌, inl, inr, refl, sym, ap, subst, ◌∙◌, true, ltb, ◌==◌,
  lt→ltb, Bool-cases, List, ◌++◌, length, take, drop, replicate, arith, length-append, length-take,
  length-drop, length-replicate, take-append_length,
}
use protosocket.Prelude.Word.{add64}
use protosocket.Codec.{Codec, would_block, interrupted, other}
use protosocket.Reactor.{MessageReactor, Stream, Io, finished, failed, waiting}
use protosocket.Connection.State.{
  Connection, ReadBufferState, pending, more_to_read, disconnected, error,
}
use protosocket.Connection.Receive.{on_read, poll_read_from_stream, grow, read_if_room}
use protosocket.Connection.Receive.Cursor.{unread}

-- What a stream promises: it gives no more bytes than there is room for, and `left` says how many
-- more reads, with bytes or interrupted, it can answer before it has to wait.
pub record IsFinite {S : Type 0} (stream : Stream S) (left : S → ℕ) : Type 0 where
  pub fits :
      (s s' : S) (room : ℕ) (bytes : List ℕ)
      → stream.poll_read s room ≡ (s', finished bytes)
      → length bytes ≤ room
  pub reads :
      (s s' : S) (room : ℕ) (bytes : List ℕ)
      → stream.poll_read s room ≡ (s', finished bytes)
      → length bytes ≢ 0
      → left s' < left s
  pub interrupts :
      (s s' : S) (room : ℕ) → stream.poll_read s room ≡ (s', failed interrupted) → left s' < left s

-- What fresh room is filled with.
abbrev zero_byte : ℕ
zero_byte = 0

module _ {S D R B L : Type 0} where
  -- Between polls: the unread bytes are fewer than the longest message, and the buffer is bounded.
  pub record IsReady (c : Connection S D R B L) : Type 0 where
    pub in_buffer : c.receive_buffer_unread_index ≤ length c.receive_buffer
    pub short : c.receive_buffer_unread_index < c.max_buffer_length
    pub bounded : length c.receive_buffer < c.max_buffer_length + c.buffer_allocation_increment
    pub grows : 0 < c.buffer_allocation_increment
    pub sized : c.max_buffer_length + c.buffer_allocation_increment < 2 ^ 63

  -- Within a poll: there is room to read into.
  pub record HasSpace (c : Connection S D R B L) : Type 0 where
    pub space : c.receive_buffer_unread_index < length c.receive_buffer
    pub bounded : length c.receive_buffer < c.max_buffer_length + c.buffer_allocation_increment

  -- Growing leaves all but the buffer alone.
  pub record Grown (c c' : Connection S D R B L) : Type 0 where
    pub stream : c'.stream ≡ c.stream
    pub unread_index : c'.receive_buffer_unread_index ≡ c.receive_buffer_unread_index
    pub max_buffer_length : c'.max_buffer_length ≡ c.max_buffer_length
    pub buffer_allocation_increment : c'.buffer_allocation_increment ≡ c.buffer_allocation_increment

  pub grow-frame : (c : Connection S D R B L) → Grown c (grow c)
  unfolding grow
  grow-frame c = ground arith

  pub grow-HasSpace : (c : Connection S D R B L) → IsReady c → HasSpace (grow c)
  unfolding grow
  grow-HasSpace c h = ground (
    arith,
    length-append c.receive_buffer (replicate c.buffer_allocation_increment 0),
    length-replicate c.buffer_allocation_increment zero_byte,
  )

  abbrev pub with_stream : Connection S D R B L → S → Connection S D R B L
  with_stream c s = record c { stream = s }

  -- The bytes that were read stand behind the unread ones, and the buffer keeps its size.
  pub record Received (c : Connection S D R B L) (bytes : List ℕ) (c' : Connection S D R B L)
      : Type 0 where
    pub behind : unread c' ≡ unread c ++ bytes
    pub size : length c'.receive_buffer ≡ length c.receive_buffer
    pub index : c'.receive_buffer_unread_index ≡ c.receive_buffer_unread_index + length bytes
    pub inside : c'.receive_buffer_unread_index ≤ length c'.receive_buffer

  on_read-Received :
      (c : Connection S D R B L) (bytes : List ℕ)
      → c.receive_buffer_unread_index ≤ length c.receive_buffer
      → length c.receive_buffer < 2 ^ 63
      → length bytes ≤ length c.receive_buffer - c.receive_buffer_unread_index
      → length bytes ≢ 0
      → (c' : Connection S D R B L) × (on_read c (finished bytes) ≡ (more_to_read, c'))
        × Received c bytes c'
        × (c' ≡ record c {
          receive_buffer = c'.receive_buffer;
          receive_buffer_unread_index = c'.receive_buffer_unread_index;
        })
  unfolding on_read
  on_read-Received c bytes le small fits some_bytes =
      let n = c.receive_buffer_unread_index in
      let buf = c.receive_buffer in
      let tail = drop (n + length bytes) buf in
      let no_wrap : add64 n (length bytes) ≡ n + length bytes = omega arith in
      let front : length (take n buf) ≡ n = omega (arith, length-take n buf) in
      let filled : length (take n buf ++ bytes) ≡ n + length bytes =
        omega (arith, front, length-append (take n buf) bytes) in
      (
        record c {
          receive_buffer = take n buf ++ bytes ++ tail;
          receive_buffer_unread_index = add64 n (length bytes);
        },
        ground arith,
        record {
          behind = rw no_wrap (
              ap (λ k. take k (take n buf ++ bytes ++ tail)) (sym filled)
              ∙ take-append_length (take n buf ++ bytes) tail);
          size = omega (
            arith,
            filled,
            length-append (take n buf ++ bytes) tail,
            length-drop (n + length bytes) buf,
          );
          index = no_wrap;
          inside = omega (
            arith,
            fits,
            filled,
            length-append (take n buf ++ bytes) tail,
            length-drop (n + length bytes) buf,
          );
        },
        refl,
      )

-- The stream is where a read left it that is to be woken for more.
abbrev pub Waits : {S : Type 0} → Stream S → S → Type 0
Waits {S} stream s' =
    (s : S) × (room : ℕ) × ((stream.poll_read s room ≡ (s', waiting))
      ⊎ (stream.poll_read s room ≡ (s', failed would_block)))

-- What one attempt to read leads to.
module _ {S D R B L : Type 0} (stream : Stream S) (left : S → ℕ) where
  pub data Attempt (c : Connection S D R B L) (state : ReadBufferState) (c' : Connection S D R B L)
      : Type 0 where
    parks :
        state ≡ pending → c' ≡ with_stream c c'.stream → Waits stream c'.stream → Attempt c state c'
    ends : (state ≡ disconnected) ⊎ (state ≡ error) → Attempt c state c'
    retries :
        state ≡ more_to_read
        → c' ≡ with_stream c c'.stream
        → left c'.stream < left c.stream
        → Attempt c state c'
    reads :
        (bytes : List ℕ)
        → state ≡ more_to_read
        → Received c bytes c'
        → c' ≡ record c {
          stream = c'.stream;
          receive_buffer = c'.receive_buffer;
          receive_buffer_unread_index = c'.receive_buffer_unread_index;
        }
        → left c'.stream < left c.stream
        → Attempt c state c'

  module _ {I O : Type 0} (codec : Codec D I O B) (reactor : MessageReactor R D B I O L)
      (finite : IsFinite stream left) (c : Connection S D R B L)
      (le : c.receive_buffer_unread_index ≤ length c.receive_buffer)
      (small : length c.receive_buffer < 2 ^ 63) where
    abbrev Attempts : ReadBufferState × Connection S D R B L → Type 0
    Attempts o = Attempt c o.0 o.1

    abbrev room : ℕ
    room = length c.receive_buffer - c.receive_buffer_unread_index

    on_read-Attempt :
        (s : S) (out : Io (List ℕ))
        → stream.poll_read c.stream (length c.receive_buffer - c.receive_buffer_unread_index)
          ≡ (s, out)
        → Attempts (on_read (with_stream c s) out)
    unfolding on_read
    on_read-Attempt s (failed would_block) e = parks refl refl (c.stream, room, inr e)
    on_read-Attempt s (failed interrupted) e = retries refl refl (finite.interrupts c.stream s _ e)
    on_read-Attempt s (failed other) e = ends (inr refl)
    on_read-Attempt s waiting e = parks refl refl (c.stream, room, inl e)
    on_read-Attempt s (finished bytes) e = elim (Bool-cases (length bytes == 0)) [
      | inl none_read ↦ rw none_read (ends (inl refl))
      | inr some_read ↦
          let ne : length bytes ≢ 0 = ground arith in
          let (c', eq, rec, frame) =
            on_read-Received (with_stream c s) bytes le small (finite.fits c.stream s _ bytes e)
              ne in
          let es : c'.stream ≡ s = ap (λ (x : Connection S D R B L). x.stream) frame in
          subst Attempts (sym eq) (
            reads bytes refl
              (record {
                behind = rec.behind;
                size = rec.size;
                index = rec.index;
                inside = rec.inside;
              })
              (frame
                ∙ ap
                    (λ x. record c {
                      stream = x;
                      receive_buffer = c'.receive_buffer;
                      receive_buffer_unread_index = c'.receive_buffer_unread_index;
                    })
                    (sym es))
              (subst (λ x. left x < left c.stream) (sym es) (finite.reads c.stream s _ bytes e ne)))
    ]

    pub read_if_room-Attempt :
        c.receive_buffer_unread_index < length c.receive_buffer
        → Attempts (read_if_room stream codec reactor c)
    unfolding read_if_room poll_read_from_stream
    read_if_room-Attempt lt =
        let room : ltb 0 (length c.receive_buffer - c.receive_buffer_unread_index) ≡ true =
          lt→ltb _ _ (omega arith) in
        rw room (
          on_read-Attempt
            (stream.poll_read c.stream (length c.receive_buffer - c.receive_buffer_unread_index)).0
            (stream.poll_read c.stream (length c.receive_buffer - c.receive_buffer_unread_index)).1
            refl)
