-- ===== src/Spillway/Receiver/Fresh.antt =====
-- A new channel (spillway/src/lib.rs).
use protosocket.Prelude.{
  ℕ, zero, suc, ◌≤◌, ◌<◌, ◌≡◌, refl, sym, subst, ◌∙◌, some, ◌%◌, false, [], length, replicate,
  arith, length-replicate,
}
use mathlib.Core.Option.{some_inj}
use protosocket.Prelude.Word.{u64_max}
use protosocket.Spillway.Chute
use protosocket.Spillway.Chute.{Chute}
use protosocket.Spillway.Shared
use protosocket.Spillway.Shared.{Shared}
use native.Mathlib.Nat.{mod-lt}
use protosocket.Spillway.Contents.{stored_in, AllMarked}
use protosocket.Spillway.Sender
use protosocket.Spillway.Sender.{Sender}
use protosocket.Spillway.Receiver
use protosocket.Spillway.Receiver.{Receiver, channel_with_capacity_and_concurrency}
use protosocket.Spillway.Receiver.Validity.{stored, IsValid}

module _ {ℓ} (T : Type ℓ) where
  pub fresh-AllMarked : (n : ℕ) → AllMarked {T = T} (replicate n Chute.default)
  unfolding Chute.default
  fresh-AllMarked zero = tt
  fresh-AllMarked (suc n) = (refl, fresh-AllMarked n)

  fresh-stored_in : (n : ℕ) → stored_in {T = T} (replicate n Chute.default) ≡ 0
  unfolding Chute.default
  fresh-stored_in zero = refl
  fresh-stored_in (suc n) = omega (arith, fresh-stored_in n)

  abbrev fresh : ℕ → ℕ → Shared T
  fresh capacity concurrency = record {
    chutes = replicate concurrency Chute.default;
    waker = [];
    senders = 1;
    chute_clock = 1;
    channel_size = 0;
    capacity = capacity;
    dead = false;
  }

  -- Making a channel of at least one chute does not panic.
  pub channel_with_capacity_and_concurrency-some :
      (capacity concurrency : ℕ)
      → 0 < concurrency
      → channel_with_capacity_and_concurrency {T = T} capacity concurrency
        ≡ some (
          record { chute = 0 % length (replicate concurrency (Chute.default {T = T})) },
          Receiver.new (fresh capacity concurrency),
        )
  unfolding channel_with_capacity_and_concurrency Receiver.new Sender.new Shared.new
      Shared.add_sender Shared.choose_chute
  channel_with_capacity_and_concurrency-some capacity concurrency some_chutes =
      let sizes = length-replicate concurrency (Chute.default {T = T}) in
      ground (arith, sizes, some_chutes)

  -- It is valid, for every capacity of 64 bits: nothing is stored and nothing counted. It has one
  -- sender, whose chute exists, and it is open.
  pub channel_with_capacity_and_concurrency-IsValid :
      (capacity concurrency : ℕ)
      → 0 < concurrency
      → capacity ≤ u64_max
      → (sender : Sender) (r : Receiver T)
      → channel_with_capacity_and_concurrency {T = T} capacity concurrency ≡ some (sender, r)
      → IsValid r
        × (stored r ≡ 0)
        × (r.shared.senders ≡ 1)
        × (sender.chute < length r.shared.chutes)
        × (r.shared.dead ≡ false)
  unfolding Receiver.new
  channel_with_capacity_and_concurrency-IsValid capacity concurrency some_chutes word sender r e =
      let sizes = length-replicate concurrency (Chute.default {T = T}) in
      let nothing = fresh-stored_in concurrency in
      let empty : stored (Receiver.new (fresh capacity concurrency)) ≡ 0 = omega (arith, nothing) in
      let inside : 0 < length (replicate concurrency (Chute.default {T = T})) =
        omega (arith, sizes, some_chutes) in
      let same =
        some_inj.0
          (sym (channel_with_capacity_and_concurrency-some capacity concurrency some_chutes) ∙ e) in
      subst
        (λ (o : Sender × Receiver T).
          IsValid o.1
          × (stored o.1 ≡ 0)
          × (o.1.shared.senders ≡ 1)
          × (o.0.chute < length o.1.shared.chutes)
          × (o.1.shared.dead ≡ false))
        same
        (
          record {
            in_range = inside;
            marked = fresh-AllMarked concurrency;
            small = word;
            counted = λ _. sym empty;
            bounded = λ _. omega (arith, empty);
          },
          empty,
          refl,
          mod-lt 0 inside,
          refl,
        )
