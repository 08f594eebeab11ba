-- ===== src/Spillway/Race/Histories.antt =====
-- Whole operations of a channel (spillway/src/receiver.rs, spillway/src/sender.rs), one after the
-- other, are histories of Race.
use protosocket.Prelude.{
  Poll, ℕ, ◌+◌, ◌^◌, ◌<◌, ◌≡◌, ◌≢◌, ◌⊎◌, Bool, true, false, List, [], Option, none, some,
}
use protosocket.Spillway.Shared.{Shared}
use protosocket.Spillway.Sender
use protosocket.Spillway.Sender.{Sender}
use protosocket.Spillway.Receiver.{Receiver, channel_with_concurrency, poll_next}
use protosocket.Spillway.Receiver.Validity.{IsValid}
use protosocket.Spillway.Race.{Place, resting, parked, Reach}
use protosocket.Spillway.Race.Whole.{whole}
use protosocket.Spillway.Race.Alone.{place}
use protosocket.Spillway.Race.Sends.{with_shared}
use protosocket.Spillway.Race.Holding.{after, Holds, made-Holds, polled-Holds}
use protosocket.Spillway.Race.Senders.{batch_goes, there, batch-Holds, cloned-Holds, dropped-Holds}

module _ {ℓ} {T : Type ℓ} where
  -- Whole operations on a new unbounded channel of `n` chutes: polls until one says that it has ended,
  -- batches that are not empty, clones and drops of senders.
  pub data History (n : ℕ) : Place → Receiver T → Bool → Type ℓ where
    made :
        (me : Sender) (r : Receiver T)
        → channel_with_concurrency n ≡ some (me, r)
        → History n resting r true
    polled :
        {p : Place} {r : Receiver T} {scheduled : Bool}
        → History n p r scheduled
        → (p ≡ resting) ⊎ (p ≡ parked)
        → (a : Poll (Option T)) (r' : Receiver T) → poll_next r ≡ some (a, r')
        → History n (place a) r' false
    batched :
        {p : Place} {r : Receiver T} {scheduled : Bool}
        → History n p r scheduled
        → 0 < r.shared.senders
        → (me : Sender) (values : List T) (s' : Shared T) → values ≢ []
        → Sender.send_many me r.shared values ≡ some (none, s')
        → History n p (with_shared r s') (after scheduled r.shared.waker s'.waker)
    cloned :
        {p : Place} {r : Receiver T} {scheduled : Bool}
        → History n p r scheduled
        → 0 < r.shared.senders
        → r.shared.senders + 1 < 2 ^ 64
        → (me clone : Sender) (s' : Shared T) → Sender.clone me r.shared ≡ some (clone, s')
        → History n p (with_shared r s') scheduled
    dropped :
        {p : Place} {r : Receiver T} {scheduled : Bool}
        → History n p r scheduled
        → 0 < r.shared.senders
        → (me : Sender)
        → History n p
            (with_shared r (Sender.drop_last me r.shared))
            (after scheduled r.shared.waker (Sender.drop_last me r.shared).waker)

  History-Holds :
      (n : ℕ) (p : Place) (r : Receiver T) (scheduled : Bool)
      → 0 < n
      → History n p r scheduled
      → Holds n p r scheduled
  History-Holds n p r' scheduled some_chute (made me r e) = made-Holds n some_chute me r e
  History-Holds n p r' scheduled' some_chute
        (polled {p = q} {r = r} {scheduled = b} past rests a r'' e) =
      polled-Holds n q r b (History-Holds n q r b some_chute past) rests a r'' e
  History-Holds n p r' scheduled' some_chute
        (batched {p = q} {r = r} {scheduled = b} past some_sender me values s' ne e) =
      let h = History-Holds n q r b some_chute past in
      let goes = batch_goes me r.shared s' values h.unbounded h.alive e in
      let (c, at) = there r.shared s' me.chute values goes in
      batch-Holds n q r b h some_sender me.chute c values s' ne at goes
  History-Holds n p r' scheduled' some_chute
        (cloned {p = q} {r = r} {scheduled = b} past some_sender small me clone s' e) =
      cloned-Holds n q r b (History-Holds n q r b some_chute past) some_sender small me clone s' e
  History-Holds n p r' scheduled' some_chute
        (dropped {p = q} {r = r} {scheduled = b} past some_sender me) =
      dropped-Holds n q r b (History-Holds n q r b some_chute past) some_sender me

  -- After any whole operations on a new unbounded channel, of one chute at least, the receiver is
  -- valid, and its state, with no sender at work, is one that the steps of Race lead to: there the
  -- waker is registered that the calls of the `AtomicWaker` leave registered, the task is scheduled
  -- as their wakes leave it, and the receiver stands where the answer of its last poll says.
  pub History-Reach :
      (n : ℕ) (p : Place) (r : Receiver T) (scheduled : Bool)
      → 0 < n
      → History n p r scheduled
      → IsValid r × Reach n p (whole r scheduled)
  History-Reach n p r scheduled some_chute past =
      let h = History-Holds n p r scheduled some_chute past in (h.valid, h.reach)
