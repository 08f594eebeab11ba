-- ===== src/Connection/Receive/Rounds.antt =====
-- The rounds of poll_receive (protosocket-connection/src/connection.rs), one by one.
use protosocket.Prelude.{done, ℕ, suc, ◌≡◌, ◌⊎◌, true, false, arith}
use protosocket.Codec.{Codec}
use protosocket.Reactor.{MessageReactor, Stream}
use protosocket.Connection.State.{
  Connection, ReadBufferState, pending, more_to_read, disconnected, error,
}
use protosocket.Connection.Receive.{
  poll_read_inbound, read_inbound_messages_and_react, poll_receive,
}

module _ {S D R B I O L : Type 0} (stream : Stream S) (codec : Codec D I O B)
    (reactor : MessageReactor R D B I O L) (rounds : ℕ) where
  module _ (fuel : ℕ) (c c' : Connection S D R B L) where
    pub poll_receive_parked :
        poll_read_inbound stream codec reactor c ≡ (pending, c')
        → poll_receive stream codec reactor rounds (suc fuel) c ≡ done (false, c')
    unfolding poll_receive
    poll_receive_parked e = ground arith

    pub poll_receive_closed :
        (state : ReadBufferState)
        → (state ≡ disconnected) ⊎ (state ≡ error)
        → poll_read_inbound stream codec reactor c ≡ (state, c')
        → poll_receive stream codec reactor rounds (suc fuel) c ≡ done (true, c')
    unfolding poll_receive
    poll_receive_closed state s e = ground arith

    pub poll_receive_again :
        (c'' : Connection S D R B L)
        → poll_read_inbound stream codec reactor c ≡ (more_to_read, c')
        → read_inbound_messages_and_react stream codec reactor rounds c' ≡ done (pending, c'')
        → poll_receive stream codec reactor rounds (suc fuel) c
          ≡ poll_receive stream codec reactor rounds fuel c''
    unfolding poll_receive
    poll_receive_again c'' e f = ground arith

    pub poll_receive_cut :
        (c'' : Connection S D R B L)
        → poll_read_inbound stream codec reactor c ≡ (more_to_read, c')
        → read_inbound_messages_and_react stream codec reactor rounds c' ≡ done (disconnected, c'')
        → poll_receive stream codec reactor rounds (suc fuel) c ≡ done (true, c'')
    unfolding poll_receive
    poll_receive_cut c'' e f = ground arith
