-- ===== src/Framing/Prost/Frames.antt =====
-- Frames of the prost codec, and a connection that they make spin (protosocket-prost/src/decoder.rs).
use protosocket.Prelude.{
  starved, ℕ, suc, ◌+◌, ◌-◌, ◌^◌, ◌≤◌, ◌<◌, ◌≡◌, List, [], ◌++◌, length, none, some, arith,
  length-append,
}
use protosocket.Codec.{Encoder, message, incomplete_buffer}
use protosocket.Reactor.{MessageReactor, Stream}
use protosocket.Connection.State.{Connection}
use protosocket.Connection.Receive.{poll_receive}
use protosocket.Connection.Receive.Faults.{IsFull, poll_receive_spins}
use protosocket.Framing.Prost.{ProstMessage, decode_message, decode, decoder, serialize_into_buffer}

-- What prost documents of a message and its frame: the delimiter says how long the message is, and
-- what was encoded into an empty buffer is decoded again, whatever follows.
pub record IsFrame {M : Type 0} (prost : ProstMessage M) (m : M) (frame : List ℕ) : Type 0 where
  pub encoded : prost.encode_length_delimited m [] ≡ some frame
  pub some_bytes : 0 < length frame
  pub delimited :
      (rest : List ℕ)
      → (n : ℕ) × (prost.decode_length_delimiter (frame ++ rest) ≡ some n)
        × (n + prost.length_delimiter_len n ≡ length frame)
  pub decoded : (rest : List ℕ) → prost.decode_length_delimited (frame ++ rest) ≡ some (m, rest)

module _ {M : Type 0} (prost : ProstMessage M) where
  -- A message that is serialized into an empty buffer is decoded again, whatever follows it, and takes
  -- the bytes of its frame.
  pub decode-frame :
      (m : M) (frame rest : List ℕ)
      → IsFrame prost m frame
      → length frame < 2 ^ 64
      → ((serialize_into_buffer prost tt m []).1 ≡ frame)
        × (decode prost tt (frame ++ rest) ≡ (tt, message (length frame) m))
  unfolding serialize_into_buffer decode decode_message
  decode-frame m frame rest h small =
      let (n, e, whole) = h.delimited rest in
      let sizes = length-append frame rest in
      let taken : length (frame ++ rest) - length rest ≡ length frame = omega (arith, sizes) in
      (ground (arith, h.encoded), ground (arith, e, whole, sizes, small, h.decoded rest, taken))

  -- A peer that fills the receive buffer with bytes that hold no length delimiter makes a connection
  -- with this decoder spin, if its limit is ten bytes or more: the decoder asks for ten bytes, however
  -- many there are.
  pub delimiter_spins :
      {S R O B L : Type 0} (stream : Stream S) (encoder : Encoder (Unit {0}) O B)
      (reactor : MessageReactor R (Unit {0}) B M O L) (c : Connection S (Unit {0}) R B L)
      (rounds fuel : ℕ)
      → IsFull c
      → 10 ≤ c.max_buffer_length
      → prost.decode_length_delimiter c.receive_buffer ≡ none
      → poll_receive stream
          (record { decoder = decoder prost; encoder = encoder })
          reactor
          (suc rounds)
          fuel
          c
        ≡ starved
  unfolding decoder decode
  delimiter_spins stream encoder reactor c rounds fuel h limit e =
      poll_receive_spins stream (record { decoder = decoder prost; encoder = encoder }) reactor c
        rounds fuel (incomplete_buffer 10) h limit (ground (arith, e))
