-- ===== src/Tests/World.antt =====
-- A small world for the tests of a connection: a scripted stream, codecs and a reactor.
use protosocket.Prelude.{
  ready, ℕ, ◌+◌, ◌≤◌, ◌<◌, ◌≡◌, ◌≢◌, false, if◌then◌else◌, ltb, List, [], ◌∷◌, length, take, none,
  arith, length-take,
}
use protosocket.Codec.{
  Codec, Decoded, message, refused, incomplete_buffer, skip_message, go_on, interrupted,
}
use protosocket.Reactor.{MessageReactor, Stream, Io, finished, failed, waiting}
use protosocket.Connection.Receive.Consumes.{IsHonest}
use protosocket.Connection.Receive.Totality.{IsFinite}

-- A stream that answers from a script, and never more bytes than there is room for.
abbrev pub Script : Type 0
Script = List (Io (List ℕ))

abbrev clip : ℕ → Io (List ℕ) → Io (List ℕ)
clip room (finished bytes) = finished (take room bytes)
clip room (failed e) = failed e
clip room waiting = waiting

abbrev script_read : Script → ℕ → Script × Io (List ℕ)
script_read [] room = ([], waiting)
script_read (x ∷ xs) room = (xs, clip room x)

abbrev total_length : List (List ℕ) → ℕ
total_length [] = 0
total_length (x ∷ xs) = length x + total_length xs

abbrev pub scripted : Stream Script
scripted = record {
  poll_read = script_read;
  poll_write_vectored = λ s slices. (s, finished (total_length slices));
  poll_flush = λ s. (s, finished tt);
}

-- A frame is its payload behind one byte with the length of the payload.
abbrev framed_decode : Unit {0} → List ℕ → Unit {0} × Decoded (List ℕ)
framed_decode d [] = (d, refused (incomplete_buffer 1))
framed_decode d (n ∷ bytes) =
    if ltb (length bytes) n
    then (d, refused (incomplete_buffer (n + 1)))
    else (d, message (n + 1) (take n bytes))

abbrev framed_encode : Unit {0} → List ℕ → Unit {0} × List ℕ
framed_encode d payload = (d, length payload ∷ payload)

abbrev with_decode :
    (Unit {0} → List ℕ → Unit {0} × Decoded (List ℕ)) → Codec (Unit {0}) (List ℕ) (List ℕ) (List ℕ)
with_decode decode = record {
  decoder = record { decode = decode };
  encoder = record { encode = framed_encode; return_buffer = λ d _. d };
}

abbrev pub framed : Codec (Unit {0}) (List ℕ) (List ℕ) (List ℕ)
framed = with_decode framed_decode

-- A codec that wants to skip a hundred bytes, and one that claims to have consumed as many.
abbrev pub skipping : Codec (Unit {0}) (List ℕ) (List ℕ) (List ℕ)
skipping = with_decode (λ d _. (d, refused (skip_message 100)))

abbrev pub greedy : Codec (Unit {0}) (List ℕ) (List ℕ) (List ℕ)
greedy = with_decode (λ d bytes. (d, message 100 bytes))

-- A reactor that keeps the messages, the latest first.
abbrev pub collecting :
    MessageReactor (List (List ℕ)) (Unit {0}) (List ℕ) (List ℕ) (List ℕ) (List ℕ)
collecting = record {
  on_inbound_message = λ r m. (m ∷ r, go_on);
  poll = λ r. (r, false);
  on_outbound_message = λ r l. (r, l);
  poll_outbound_many = λ r b. (r, b, ready none);
}

framed_takes :
    (d d' : Unit {0}) (bytes : List ℕ) (n : ℕ) (m : List ℕ)
    → framed_decode d bytes ≡ (d', message n m)
    → (0 < n) × (n ≤ length bytes)
framed_takes d d' [] n m e = absurd (ground (arith, e))
framed_takes d d' (b ∷ bytes) n m e = ground (arith, e)

framed_skips :
    (d d' : Unit {0}) (bytes : List ℕ) (n : ℕ)
    → framed_decode d bytes ≡ (d', refused (skip_message n))
    → ⊥
framed_skips d d' [] n e = ground (arith, e)
framed_skips d d' (b ∷ bytes) n e = ground (arith, e)

framed_asks :
    (d d' : Unit {0}) (bytes : List ℕ) (n : ℕ)
    → framed_decode d bytes ≡ (d', refused (incomplete_buffer n))
    → length bytes < n
framed_asks d d' [] n e = ground (arith, e)
framed_asks d d' (b ∷ bytes) n e = ground (arith, e)

pub framed-IsHonest : (max : ℕ) → IsHonest framed max
framed-IsHonest max = record {
  takes = framed_takes;
  skips = λ d d' bytes n e. absurd (framed_skips d d' bytes n e);
  asks = framed_asks;
}

scripted_fits :
    (s s' : Script) (room : ℕ) (bytes : List ℕ)
    → script_read s room ≡ (s', finished bytes)
    → length bytes ≤ room
scripted_fits [] s' room bytes e = absurd (ground (arith, e))
scripted_fits (finished b ∷ xs) s' room bytes e = ground (arith, e, length-take room b)
scripted_fits (failed b ∷ xs) s' room bytes e = absurd (ground (arith, e))
scripted_fits (waiting ∷ xs) s' room bytes e = absurd (ground (arith, e))

scripted_left :
    (s s' : Script) (room : ℕ) (out : Io (List ℕ))
    → script_read s room ≡ (s', out)
    → out ≢ waiting
    → length s' < length s
scripted_left [] s' room out e ne = absurd (ne (ground (arith, e)))
scripted_left (x ∷ xs) s' room out e ne = ground (arith, e)

pub scripted-IsFinite : IsFinite scripted length
scripted-IsFinite = record {
  fits = scripted_fits;
  reads = λ s s' room bytes e _. scripted_left s s' room (finished bytes) e (λ p. cc);
  interrupts = λ s s' room e. scripted_left s s' room (failed interrupted) e (λ p. cc);
}
