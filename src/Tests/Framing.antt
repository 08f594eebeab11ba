-- ===== src/Tests/Framing.antt =====
-- The two wire formats at small inputs.
use protosocket.Prelude.{
  ready, starved, ℕ, ◌+◌, ◌*◌, ◌/◌, ◌%◌, ◌<◌, ◌≡◌, inl, refl, ap, true, false, if◌then◌else◌, ltb,
  List, [], ◌∷◌, ◌++◌, length, take, drop, replicate, Option, none, some, arith, length-append,
  length-drop, take-append_length, drop-append_length,
}
use protosocket.Codec.{Encoder, message, go_on}
use protosocket.Reactor.{MessageReactor}
use protosocket.Connection.State.{Connection}
use protosocket.Connection.Receive.{poll_receive}
use protosocket.Connection.Receive.Consumes.{IsHonest}
use protosocket.Connection.Receive.Faults.{IsFull}
use protosocket.Framing.MessagePack
use protosocket.Framing.MessagePack.{MessagePack, State, waiting, reading_length, decode_message}
use protosocket.Framing.MessagePack.RoundTrip.{IsFaithful, Waits, decode-serialize_into_buffer}
use protosocket.Framing.MessagePack.Honest.{IsReading, decoder-IsHonest}
use protosocket.Framing.Prost
use protosocket.Framing.Prost.{ProstMessage}
use protosocket.Framing.Prost.Frames.{IsFrame, decode-frame, delimiter_spins}
use protosocket.Tests.World.{Script, scripted}

-- A number in a tag and four bytes, and a message of bytes behind its length.
abbrev read_u32 : List ℕ → Option (ℕ × List ℕ)
read_u32 (t ∷ a ∷ b ∷ c ∷ d ∷ rest) = some (((a * 256 + b) * 256 + c) * 256 + d, rest)
read_u32 _ = none

abbrev from_read : List ℕ → Option (List ℕ × List ℕ)
from_read [] = none
from_read (n ∷ bytes) = if ltb (length bytes) n then none else some (take n bytes, drop n bytes)

abbrev bytes_rmp : MessagePack (List ℕ)
bytes_rmp = record {
  read_u32 = read_u32;
  write_u32 = λ n. 206 ∷ n / 16777216 ∷ n / 65536 % 256 ∷ n / 256 % 256 ∷ n % 256 ∷ [];
  from_read = from_read;
  write = λ m. length m ∷ m;
}

big_endian :
    (n : ℕ) → ((n / 16777216 * 256 + n / 65536 % 256) * 256 + n / 256 % 256) * 256 + n % 256 ≡ n
big_endian n = omega arith

from_read-append : (m rest : List ℕ) → from_read (length m ∷ m ++ rest) ≡ some (m, rest)
from_read-append m rest =
    ground (arith, length-append m rest, take-append_length m rest, drop-append_length m rest)

bytes_rmp-IsFaithful : IsFaithful bytes_rmp
bytes_rmp-IsFaithful = record {
  length_bytes = λ n. refl;
  reads_u32 = λ n rest small. ap (λ k. some (k, rest)) (big_endian n);
  reads_message = from_read-append;
}

u32_takes :
    (bytes rest : List ℕ) (n : ℕ) → read_u32 bytes ≡ some (n, rest) → length rest + 5 ≡ length bytes
u32_takes [] rest n e = absurd (ground (arith, e))
u32_takes (a ∷ []) rest n e = absurd (ground (arith, e))
u32_takes (a ∷ b ∷ []) rest n e = absurd (ground (arith, e))
u32_takes (a ∷ b ∷ c ∷ []) rest n e = absurd (ground (arith, e))
u32_takes (a ∷ b ∷ c ∷ d ∷ []) rest n e = absurd (ground (arith, e))
u32_takes (t ∷ a ∷ b ∷ c ∷ d ∷ bytes) rest n e = ground (arith, e)

message_takes :
    (bytes rest m : List ℕ) → from_read bytes ≡ some (m, rest) → length rest < length bytes
message_takes [] rest m e = absurd (ground (arith, e))
message_takes (n ∷ bytes) rest m e = ground (arith, e, length-drop n bytes)

bytes_rmp-IsReading : IsReading bytes_rmp
bytes_rmp-IsReading = record { u32_takes = u32_takes; message_takes = message_takes }

abbrev no_encoder : Encoder State (List ℕ) (List ℕ)
no_encoder = record { encode = λ d m. (d, m); return_buffer = λ d b. d }

decode-serialize_into_buffer_example :
    ((k : ℕ)
      → k < 7
      → Waits bytes_rmp bytes_rmp-IsFaithful (9 ∷ []) (omega arith) k (
          MessagePack.decode bytes_rmp waiting
            (take k (MessagePack.serialize_into_buffer bytes_rmp tt (9 ∷ []) []).1)))
    × (MessagePack.decode bytes_rmp waiting
          ((MessagePack.serialize_into_buffer bytes_rmp tt (9 ∷ []) []).1 ++ 1 ∷ [])
        ≡ (waiting, message 7 (9 ∷ [])))
decode-serialize_into_buffer_example =
    decode-serialize_into_buffer bytes_rmp bytes_rmp-IsFaithful (9 ∷ []) (omega arith) waiting
      (1 ∷ []) (inl refl)

decoder-IsHonest_example :
    IsHonest (record { decoder = MessagePack.decoder bytes_rmp; encoder = no_encoder }) 64
decoder-IsHonest_example = decoder-IsHonest bytes_rmp bytes_rmp-IsReading no_encoder 64

-- A message of bytes behind a delimiter of one byte, below 128.
abbrev bytes_delimiter : List ℕ → Option ℕ
bytes_delimiter [] = none
bytes_delimiter (n ∷ bytes) = if ltb n 128 then some n else none

abbrev bytes_prost : ProstMessage (List ℕ)
bytes_prost = record {
  decode_length_delimiter = bytes_delimiter;
  length_delimiter_len = λ n. 1;
  decode_length_delimited = from_read;
  encode_length_delimited = λ m buffer. some (buffer ++ length m ∷ m);
}

nine-IsFrame : IsFrame bytes_prost (9 ∷ []) (1 ∷ 9 ∷ [])
nine-IsFrame = record {
  encoded = refl;
  some_bytes = omega arith;
  delimited = λ rest. (1, refl, refl);
  decoded = λ rest. ground arith;
}

decode-frame_example :
    ((Prost.serialize_into_buffer bytes_prost tt (9 ∷ []) []).1 ≡ 1 ∷ 9 ∷ [])
    × (Prost.decode bytes_prost tt (1 ∷ 9 ∷ 5 ∷ []) ≡ (tt, message 2 (9 ∷ [])))
decode-frame_example =
    decode-frame bytes_prost (9 ∷ []) (1 ∷ 9 ∷ []) (5 ∷ []) nine-IsFrame (omega arith)

abbrev ignoring : MessageReactor (Unit {0}) (Unit {0}) (List ℕ) (List ℕ) (List ℕ) (List ℕ)
ignoring = record {
  on_inbound_message = λ r m. (r, go_on);
  poll = λ r. (r, false);
  on_outbound_message = λ r l. (r, l);
  poll_outbound_many = λ r b. (r, b, ready none);
}

-- The receive buffer is full of bytes that each say that the delimiter goes on.
abbrev flooded : Connection Script (Unit {0}) (Unit {0}) (List ℕ) (List ℕ)
flooded = record {
  stream = [];
  outbound_messages = record {
    cursor = 0;
    buffer = [];
    shared = record {
      chutes = record { queue = []; clean = true } ∷ [];
      waker = [];
      senders = 1;
      chute_clock = 1;
      channel_size = 0;
      capacity = 8;
      dead = false;
    };
  };
  send_buffer = [];
  receive_buffer_unread_index = 12;
  receive_buffer = replicate 12 255;
  max_buffer_length = 12;
  max_queued_send_messages = 4;
  buffer_allocation_increment = 8;
  codec = tt;
  reactor = tt;
}

abbrev any_encoder : Encoder (Unit {0}) (List ℕ) (List ℕ)
any_encoder = record { encode = λ d m. (d, m); return_buffer = λ d b. d }

flooded-IsFull : IsFull flooded
flooded-IsFull = omega arith

delimiter_spins_example :
    poll_receive scripted
      (record { decoder = Prost.decoder bytes_prost; encoder = any_encoder })
      ignoring
      13
      1000
      flooded
    ≡ starved
delimiter_spins_example =
    delimiter_spins bytes_prost scripted any_encoder ignoring flooded 12 1000 flooded-IsFull
      (omega arith) refl
