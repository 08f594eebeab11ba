-- ===== src/Connection/Start.antt =====
-- A new connection (protosocket-connection/src/connection.rs, Connection::new) on a new channel
-- (spillway/src/lib.rs) is ready for its polls.
use protosocket.Prelude.{ℕ, ◌+◌, ◌^◌, ◌≤◌, ◌<◌, ◌≡◌, some, arith}
use protosocket.Prelude.Word.{u64_max}
use protosocket.Spillway.Sender.{Sender}
use protosocket.Spillway.Receiver.{Receiver, channel_with_capacity_and_concurrency}
use protosocket.Spillway.Receiver.Fresh.{channel_with_capacity_and_concurrency-IsValid}
use protosocket.Connection.State
use protosocket.Connection.Driving.{IsLive}

module _ {S D R B L : Type 0} where
  -- A new connection is live, if its two limits are not 0 and together below 2 ^ 63, its queue of
  -- sends is of 64 bits, and its channel was made with at least one chute.
  new-IsLive :
      (s : S) (d : D) (max inc queued capacity concurrency : ℕ) (r : R)
      → 0 < max
      → 0 < inc
      → max + inc < 2 ^ 63
      → queued < 2 ^ 64
      → 0 < concurrency
      → capacity ≤ u64_max
      → (me : Sender) (queue : Receiver L)
      → channel_with_capacity_and_concurrency capacity concurrency ≡ some (me, queue)
      → IsLive (State.new {B = B} s d max inc queued queue r)
  unfolding State.new
  new-IsLive s d max inc queued capacity concurrency r some_bytes grows sized word chutes small me
        queue e =
      record {
        ready = record {
          in_buffer = omega arith;
          short = some_bytes;
          bounded = omega (arith, some_bytes);
          grows = grows;
          sized = sized;
        };
        valid =
            (channel_with_capacity_and_concurrency-IsValid L capacity concurrency chutes small me
              queue e).0;
        queued = omega arith;
        word = word;
      }
