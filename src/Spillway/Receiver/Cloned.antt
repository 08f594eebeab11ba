-- ===== src/Spillway/Receiver/Cloned.antt =====
-- A clone of a sender (spillway/src/sender.rs, Clone): the count of the senders and the clock go up.
use protosocket.Prelude.{◌%◌, ◌<◌, ◌≡◌, length, some, arith}
use protosocket.Prelude.Word.{add64}
use protosocket.Spillway.Shared
use protosocket.Spillway.Shared.{Shared}
use protosocket.Spillway.Sender
use protosocket.Spillway.Sender.{Sender}

module _ {ℓ} {T : Type ℓ} where
  abbrev pub counted : Shared T → Shared T
  counted s = record s { senders = add64 s.senders 1; chute_clock = add64 s.chute_clock 1 }

  abbrev pub next_sender : Shared T → Sender
  next_sender s = record { chute = s.chute_clock % length s.chutes }

  -- In a channel that has a chute a clone does not panic.
  pub clone-some :
      (me : Sender) (s : Shared T)
      → 0 < length s.chutes
      → Sender.clone me s ≡ some (next_sender s, counted s)
  unfolding Sender.clone Shared.add_sender Shared.choose_chute
  clone-some me s inside = ground (arith, inside)
