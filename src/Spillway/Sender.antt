-- ===== src/Spillway/Sender.antt =====
-- spillway/src/sender.rs, and the constructors of spillway/src/lib.rs. A sender holds the shared
-- state by an `Arc`; here the state is passed in and handed back.
use protosocket.Prelude.{Option, none, some, ℕ, if◌then◌else◌, ◌==◌, List}
use protosocket.Spillway.Shared
use protosocket.Spillway.Shared.{Shared, Sent}

pub record Sender : Type 0 where
  pub chute : ℕ

module _ {ℓ} {T : Type ℓ} where
  -- `none` is the panic of a channel with no chute.
  unfoldable pub new : Shared T → Option (Sender × Shared T)
  unfolding Shared.add_sender Shared.choose_chute
  new s = elim (Shared.choose_chute (Shared.add_sender s)) [
    | none ↦ none
    | some (chute, s') ↦ some (record { chute = chute }, s')
  ]

  unfoldable pub clone : Sender → Shared T → Option (Sender × Shared T)
  unfolding Shared.add_sender Shared.choose_chute
  clone _ s = elim (Shared.choose_chute (Shared.add_sender s)) [
    | none ↦ none
    | some (chute, s') ↦ some (record { chute = chute }, s')
  ]

  -- `Drop`: the last sender wakes the receiver.
  unfoldable pub drop_last : Sender → Shared T → Shared T
  unfolding Shared.drop_sender Shared.notify
  drop_last _ s = let (was, s') = Shared.drop_sender s in if was == 1 then Shared.notify s' else s'

  unfoldable pub send : Sender → Shared T → T → Sent T T
  unfolding Shared.send
  send me s value = Shared.send s me.chute value

  unfoldable pub send_many : Sender → Shared T → List T → Sent (List T) T
  unfolding Shared.send_many
  send_many me s values = Shared.send_many s me.chute values
