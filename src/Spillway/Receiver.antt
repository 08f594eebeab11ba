-- ===== src/Spillway/Receiver.antt =====
-- spillway/src/receiver.rs: the receiving half, with the shared state that its `Arc` leads to.
pub mod Validity
pub mod Batches
pub mod Fresh
pub mod Handed
pub mod Cloned
use protosocket.Prelude.{
  Poll, ready, pending, ℕ, zero, suc, ◌+◌, ◌-◌, ◌%◌, Bool, not, if◌then◌else◌, ◌==◌, List, [], ◌∷◌,
  length, get_elem?, set, Option, none, some, the,
}
use protosocket.Prelude.Word.{add64, sub64, u64_max}
use protosocket.Spillway.Chute
use protosocket.Spillway.Chute.{Chute}
use protosocket.Spillway.Shared
use protosocket.Spillway.Shared.{Shared, register}
use protosocket.Spillway.Sender
use protosocket.Spillway.Sender.{Sender}

pub record Receiver {ℓ} (T : Type ℓ) : Type ℓ where
  pub cursor : ℕ
  pub buffer : List T
  pub shared : Shared T

-- `none` is the panic of `expect`, on a dirty chute that has nothing.
abbrev pub Polled {ℓ} : Type ℓ → Type ℓ
Polled T = Option (Poll (Option T) × Receiver T)

-- `BatchDrain`: its buffer is the receiver's, and `counts` says that `channel_size` is there.
pub record BatchDrain {ℓ} (T : Type ℓ) : Type ℓ where
  pub receiver : Receiver T
  pub counts : Bool
  pub initial_len : ℕ

module _ {ℓ} {T : Type ℓ} where
  unfoldable pub new : Shared T → Receiver T
  new s = record { cursor = 0; buffer = []; shared = s }

  unfoldable pub decrement_size : Receiver T → ℕ → Receiver T
  decrement_size r count = if r.shared.capacity == u64_max then r else record r {
    shared = record (r.shared) { channel_size = sub64 r.shared.channel_size count };
  }

  -- The first value of the buffer.
  unfoldable pub pop_buffer : Receiver T → List T → Polled T
  unfolding decrement_size
  pop_buffer r [] = none
  pop_buffer r (v ∷ rest) = some (ready (some v), decrement_size (record r { buffer = rest }) 1)

  -- Take over the dirty chute, and its first value.
  unfoldable pub take_chute : Receiver T → ℕ → Polled T
  unfolding pop_buffer Chute.swap
  take_chute r dirty_index = elim (get_elem? r.shared.chutes dirty_index) [
    | none ↦ none
    | some c ↦
        let (c', filled) = Chute.swap c r.buffer in
        pop_buffer
          (record {
            cursor = (dirty_index + 1) % length r.shared.chutes;
            buffer = filled;
            shared = record (r.shared) { chutes = set r.shared.chutes dirty_index c' };
          })
          filled
  ]

  -- No chute was found dirty: register for a wake, and look once more.
  unfoldable pub double_check : Receiver T → Polled T
  unfolding take_chute Shared.race_find_dirty
  double_check r =
      let r' = record r { shared = record (r.shared) { waker = register ∷ r.shared.waker } } in
      elim (Shared.race_find_dirty r'.shared r'.cursor) [
        | some dirty_index ↦ take_chute r' dirty_index
        | none ↦ if 0 == r'.shared.senders then some (ready none, r') else some (pending, r')
      ]

  unfoldable pub find_next : Receiver T → Polled T
  unfolding take_chute double_check Shared.race_find_dirty
  find_next r = elim (Shared.race_find_dirty r.shared r.cursor) [
    | some dirty_index ↦ take_chute r dirty_index
    | none ↦ double_check r
  ]

  unfoldable pub poll_next_on : List T → Receiver T → Polled T
  unfolding pop_buffer find_next
  poll_next_on [] r = find_next r
  poll_next_on (v ∷ rest) r = pop_buffer r (v ∷ rest)

  unfoldable pub poll_next : Receiver T → Polled T
  unfolding poll_next_on
  poll_next r = poll_next_on r.buffer r

  -- `Pending` and the end of the channel are both `None` here.
  unfoldable pub try_next : Receiver T → Option (Option T × Receiver T)
  unfolding poll_next
  try_next r = elim (poll_next r) [
    | none ↦ none
    | some (p, r') ↦ some (elim p [ ready next ↦ next | pending ↦ none ], r')
  ]

  -- The value goes back to the front of the buffer, and the count with it.
  unfoldable pub put_back : T → Receiver T → BatchDrain T
  put_back next r =
      let buffer = next ∷ r.buffer in
      let bounded = not (r.shared.capacity == u64_max) in
      record {
        receiver = record r {
          buffer = buffer;
          shared =
              if bounded
              then record (r.shared) { channel_size = add64 r.shared.channel_size 1 }
              else r.shared;
        };
        counts = bounded;
        initial_len = length buffer;
      }

  -- One poll of `next_batch`. While a batch is out the receiver is the one in it.
  unfoldable pub poll_batch : Receiver T → Option (Poll (Option (BatchDrain T)) × Receiver T)
  unfolding poll_next put_back
  poll_batch r = elim (poll_next r) [
    | none ↦ none
    | some (p, r') ↦ some (
      elim p [
        | ready o ↦ ready (elim o [ none ↦ none | some next ↦ some (put_back next r') ])
        | pending ↦ pending
      ],
      r',
    )
  ]

  -- The iterator's `next`.
  unfoldable pub batch_next : BatchDrain T → Option T × BatchDrain T
  batch_next d = elim d.receiver.buffer [
    | [] ↦ (none, d)
    | v ∷ rest ↦ (some v, record d { receiver = record (d.receiver) { buffer = rest } })
  ]

  -- `n` calls of the iterator's `next`, with the values that they give.
  unfoldable pub batch_take : ℕ → BatchDrain T → List T × BatchDrain T
  unfolding batch_next
  batch_take zero d = ([], d)
  batch_take (suc n) d =
      let (o, d') = batch_next d in
      let (vs, last) = batch_take n d' in (elim o [ none ↦ vs | some v ↦ v ∷ vs ], last)

  -- `Drop` of the batch.
  unfoldable pub batch_drop : BatchDrain T → Receiver T
  batch_drop d =
      let consumed = d.initial_len - length d.receiver.buffer in
      let r = d.receiver in
      if d.counts
      then (if consumed == 0 then r else record r {
        shared = record (r.shared) { channel_size = sub64 r.shared.channel_size consumed };
      })
      else r

  unfoldable pub channel_with_capacity_and_concurrency : ℕ → ℕ → Option (Sender × Receiver T)
  unfolding Shared.new Sender.new new
  channel_with_capacity_and_concurrency capacity concurrency =
      elim (Sender.new {T = T} (Shared.new concurrency capacity)) [
        | none ↦ none
        | some (sender, s) ↦ some (sender, new s)
      ]

  unfoldable pub channel_with_concurrency : ℕ → Option (Sender × Receiver T)
  unfolding channel_with_capacity_and_concurrency
  channel_with_concurrency concurrency = channel_with_capacity_and_concurrency u64_max concurrency

  -- The call does not panic.
  unfoldable pub channel : Sender × Receiver T
  unfolding channel_with_concurrency
  channel = the (channel_with_concurrency 8) tt
