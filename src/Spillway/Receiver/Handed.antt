-- ===== src/Spillway/Receiver/Handed.antt =====
-- A new channel (spillway/src/lib.rs and sender.rs) as a server hands it on: with a clone of its first
-- sender, as a connector gets one, and without; and its end, when the first sender is the last.
use protosocket.Prelude.{
  Poll, ready, pending, Option, ◌<◌, ◌≡◌, refl, false, length, none, some, the, arith,
}
use protosocket.Spillway.Chute
use protosocket.Spillway.Shared
use protosocket.Spillway.Shared.{Shared}
use protosocket.Spillway.Sender
use protosocket.Spillway.Sender.{Sender}
use protosocket.Spillway.Receiver.{Receiver, channel, poll_next}
use protosocket.Spillway.Receiver.Fresh.{fresh-AllMarked}
use protosocket.Spillway.Receiver.Validity.{stored, IsValid, Reports, poll_next-Answers}

-- A channel with nothing in it that is open.
pub record IsOpen {ℓ} {T : Type ℓ} (r : Receiver T) : Type 0 where
  pub valid : IsValid r
  pub empty : stored r ≡ 0
  pub alive : r.shared.dead ≡ false

module _ {ℓ} (T : Type ℓ) where
  abbrev pub cloned : Sender × Shared T
  unfolding channel Sender.clone
  cloned = the (Sender.clone (channel {T = T}).0 (channel {T = T}).1.shared) tt

  pub cloned-IsOpen :
      IsOpen (record ((channel {T = T}).1) { shared = cloned.1 })
      × (cloned.1.senders ≡ 2)
      × (cloned.0.chute < length cloned.1.chutes)
  unfolding channel Sender.clone Chute.default
  cloned-IsOpen = (
    record {
      valid = record {
        in_range = omega arith;
        marked = fresh-AllMarked T 8;
        small = omega arith;
        counted = λ ne. absurd (ne refl);
        bounded = λ ne. absurd (ne refl);
      };
      empty = refl;
      alive = refl;
    },
    refl,
    omega arith,
  )

  -- With its first sender there, a new channel makes its receiver wait, and stays open.
  pub channel-waits :
      IsOpen (channel {T = T}).1
      × ((channel {T = T}).1.shared.senders ≡ 1)
      × (r : Receiver T) × (poll_next (channel {T = T}).1 ≡ some (pending, r))
      × IsOpen r
      × (r.shared.senders ≡ 1)
  unfolding channel Chute.default poll_next
  channel-waits = (
    record {
      valid = record {
        in_range = omega arith;
        marked = fresh-AllMarked T 8;
        small = omega arith;
        counted = λ ne. absurd (ne refl);
        bounded = λ ne. absurd (ne refl);
      };
      empty = refl;
      alive = refl;
    },
    refl,
    _,
    refl,
    record {
      valid = record {
        in_range = omega arith;
        marked = fresh-AllMarked T 8;
        small = omega arith;
        counted = λ ne. absurd (ne refl);
        bounded = λ ne. absurd (ne refl);
      };
      empty = refl;
      alive = refl;
    },
    refl,
  )

module _ {ℓ} {T : Type ℓ} where
  -- The receiver once the sender is dropped.
  abbrev pub without : Sender → Receiver T → Receiver T
  without me r = record r { shared = Sender.drop_last me r.shared }

  without-IsValid : (me : Sender) (r : Receiver T) → IsValid r → IsValid (without me r)
  unfolding Sender.drop_last Shared.drop_sender Shared.notify
  without-IsValid me r h = ground (arith, h)

  without-stored : (me : Sender) (r : Receiver T) → stored (without me r) ≡ stored r
  unfolding Sender.drop_last Shared.drop_sender Shared.notify
  without-stored me r = ground arith

  without-senders :
      (me : Sender) (r : Receiver T) → r.shared.senders ≡ 1 → (without me r).shared.senders ≡ 0
  unfolding Sender.drop_last Shared.drop_sender Shared.notify
  without-senders me r one = ground (arith, one)

  -- An open channel whose last sender is dropped has ended.
  pub last_drop-ends :
      (me : Sender) (r : Receiver T)
      → IsOpen r
      → r.shared.senders ≡ 1
      → (r' : Receiver T) × (poll_next (without me r) ≡ some (ready none, r'))
  last_drop-ends me r h one =
      let (p, r', e, _, says) = poll_next-Answers (without me r) (without-IsValid me r h.valid) in
      answer p r' e says
    where
      answer :
          (p : Poll (Option T)) (r' : Receiver T)
          → poll_next (without me r) ≡ some (p, r')
          → Reports (without me r) p r'
          → (r' : Receiver T) × (poll_next (without me r) ≡ some (ready none, r'))
      answer (ready (some v)) r' e says = absurd (omega (arith, says, without-stored me r, h.empty))
      answer (ready none) r' e says = (r', e)
      answer pending r' e (_, _, some_sender, _) = absurd (some_sender (without-senders me r one))
