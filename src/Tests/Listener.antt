-- ===== src/Tests/Listener.antt =====
-- Listeners and servers over a script.
use protosocket.Prelude.{
  Poll, ready, pending, done, ℕ, zero, suc, ◌+◌, ◌∙◌, ◌≡◌, refl, List, [], ◌∷◌, ◌++◌, Option, some,
  none, arith,
}
use protosocket.Spillway.Sender.{Sender}
use protosocket.Connection.State.{Connection}
use protosocket.Listener.{
  SocketResult, stream, SocketListener, StreamWithAddress, Attempt, ok, failed, JoinSet,
  TlsSocketListener, tls_poll_accept,
}
use protosocket.Listener.Serving.{Spawned}
use protosocket.Listener.InFlight.{HoldsTasks}
use protosocket.Listener.Handshakes.{Serves, tls_poll_accept-Serves}
use protosocket.Server.{ServerConnector, ProtosocketServer, poll}
use protosocket.Server.Connections.{AllMade, poll-Serves}
use protosocket.Rpc.SocketServer
use protosocket.Rpc.SocketServer.{SocketService, SocketRpcServer}
use protosocket.Rpc.SocketServer.Connections.{AllHosted, poll-Hosts}
use protosocket.Rpc.RpcSubmitter.{RpcSubmitter}

-- A listener is the list of the streams that are there to accept.
abbrev Queue : Type 0 → Type 0
Queue S = List S

abbrev accept_next : {S : Type 0} → Queue S → Queue S × Poll (SocketResult S)
accept_next [] = ([], pending)
accept_next (x ∷ xs) = (xs, ready (SocketResult.stream x))

abbrev queued : {S : Type 0} → SocketListener (Queue S) S
queued = record { poll_accept = accept_next }

-- Handshakes and addresses are numbers; a handshake gives its number, and number 0 fails.
abbrev outcome : ℕ × ℕ → Attempt ℕ (Attempt ℕ ℕ × ℕ)
outcome (zero, a) = ok (failed 1, a)
outcome (suc h, a) = ok (ok (suc h), a)

abbrev join_next : List (ℕ × ℕ) → List (ℕ × ℕ) × Poll (Option (Attempt ℕ (Attempt ℕ ℕ × ℕ)))
join_next [] = ([], ready none)
join_next (t ∷ ts) = (ts, ready (some (outcome t)))

abbrev handshakes : JoinSet (List (ℕ × ℕ)) ℕ ℕ ℕ ℕ
handshakes = record { spawn = λ j t. t ∷ j; poll_join_next = join_next }

outcome_address : (t : ℕ × ℕ) (o : Attempt ℕ ℕ) (a : ℕ) → outcome t ≡ ok (o, a) → a ≡ t.1
outcome_address (zero, b) o a e = ground (arith, e)
outcome_address (suc h, b) o a e = ground (arith, e)

joined_there :
    (j j' : List (ℕ × ℕ)) (r : Attempt ℕ (Attempt ℕ ℕ × ℕ))
    → join_next j ≡ (j', ready (some r))
    → (before after : List (ℕ × ℕ)) × (t : ℕ × ℕ) × (j ≡ before ++ t ∷ after)
      × (j' ≡ before ++ after)
      × ((o : Attempt ℕ ℕ) (a : ℕ) → r ≡ ok (o, a) → a ≡ t.1)
joined_there [] j' r e = absurd (ground (arith, e))
joined_there (t ∷ ts) j' r e =
    let same : outcome t ≡ r = cc in
    ([], ts, t, refl, ground (arith, e), λ o a f. outcome_address t o a (same ∙ f))

never_waits : (j j' : List (ℕ × ℕ)) → join_next j ≡ (j', pending) → j' ≡ j
never_waits [] j' e = absurd (ground (arith, e))
never_waits (t ∷ ts) j' e = absurd (ground (arith, e))

none_left : (j j' : List (ℕ × ℕ)) → join_next j ≡ (j', ready none) → (j ≡ []) × (j' ≡ [])
none_left [] j' e = (refl, ground (arith, e))
none_left (t ∷ ts) j' e = absurd (ground (arith, e))

abbrev handshakes-HoldsTasks : HoldsTasks handshakes
handshakes-HoldsTasks = record {
  tasks = λ j. j;
  spawned = λ j t. refl;
  joined = joined_there;
  waits = never_waits;
  empty = none_left;
}

-- A stream whose handshake fails is there to accept, and a good handshake is in flight.
abbrev arrivals : List (StreamWithAddress ℕ ℕ)
arrivals = record { stream = 0; address = 80 } ∷ []

abbrev tls_listener : TlsSocketListener (List (StreamWithAddress ℕ ℕ)) (List (ℕ × ℕ))
tls_listener = record { listener = arrivals; in_flight_connections = (5, 90) ∷ [] }

tls_poll_accept-Serves_example :
    (t' : TlsSocketListener (List (StreamWithAddress ℕ ℕ)) (List (ℕ × ℕ))) × (answer : Poll
      (SocketResult (StreamWithAddress ℕ ℕ)))
    × (tls_poll_accept queued (λ s. s) handshakes 2 3 tls_listener ≡ done (t', answer))
    × (t'.listener ≡ [])
    × Serves queued
        (λ s. s)
        handshakes
        handshakes-HoldsTasks
        tls_listener
        arrivals
        pending
        t'
        answer
tls_poll_accept-Serves_example =
    tls_poll_accept-Serves queued (λ s. s) handshakes handshakes-HoldsTasks 2 3 arrivals
      tls_listener pending ([]) (omega arith) (omega arith) tt (([]), refl, refl)

tls_run :
    tls_poll_accept queued (λ s. s) handshakes 2 3 tls_listener
    ≡ done (
      record { listener = []; in_flight_connections = [] },
      ready (stream (record { stream = 5; address = 90 })),
    )
unfolding tls_poll_accept
tls_run = refl

-- A reactor keeps its sender, and the codec is nothing.
abbrev connector : ServerConnector ℕ (Unit {0}) Sender ℕ ℕ
connector = record {
  codec = λ c shared. (c + 1, tt, shared);
  new_reactor = λ c sender shared s. (c + 10, sender, shared);
}

abbrev server : ProtosocketServer ℕ (List ℕ) ℕ (Unit {0}) Sender (List ℕ) ℕ
server = record {
  connector = 0;
  listener = 3 ∷ 4 ∷ [];
  max_buffer_length = 64;
  buffer_allocation_increment = 16;
  max_queued_outbound_messages = 2;
  spawned = [];
}

poll-Serves_example :
    (v' : ProtosocketServer ℕ (List ℕ) ℕ (Unit {0}) Sender (List ℕ) ℕ) × (cs : List
      (Spawned (Connection ℕ (Unit {0}) Sender (List ℕ) ℕ)))
    × (poll connector queued 3 server ≡ done (v', pending))
    × (v'.spawned ≡ cs)
    × AllMade connector server (3 ∷ 4 ∷ []) cs
    × (v'.listener ≡ [])
poll-Serves_example =
    poll-Serves connector queued 3 (3 ∷ 4 ∷ []) server pending ([]) (omega arith) tt
      (4 ∷ [], refl, ([], refl, refl))

-- A service for each stream, and a codec that is nothing.
abbrev service : SocketService ℕ (Unit {0}) ℕ ℕ
service = record { codec = λ c. (c, tt); new_stream_service = λ c s. (c + 1, s) }

abbrev rpc_server : SocketRpcServer ℕ (List ℕ) ℕ (Unit {0}) ℕ (List ℕ) (List ℕ) ℕ
rpc_server = record {
  socket_server = 0;
  spawned = [];
  listener = 3 ∷ 4 ∷ [];
  max_buffer_length = 64;
  buffer_allocation_increment = 16;
  max_queued_outbound_messages = 2;
}

poll-Hosts_example :
    (v' : SocketRpcServer ℕ (List ℕ) ℕ (Unit {0}) ℕ (List ℕ) (List ℕ) ℕ) × (cs : List
      (Spawned (Connection ℕ (Unit {0}) (RpcSubmitter ℕ (List ℕ)) (List ℕ) ℕ)))
    × (SocketServer.poll service ([]) queued 3 rpc_server ≡ done (v', pending))
    × (v'.spawned ≡ cs)
    × AllHosted service ([]) rpc_server (3 ∷ 4 ∷ []) cs
    × (v'.listener ≡ [])
poll-Hosts_example =
    poll-Hosts service ([]) queued 3 (3 ∷ 4 ∷ []) rpc_server pending ([]) (omega arith) tt
      (4 ∷ [], refl, ([], refl, refl))
