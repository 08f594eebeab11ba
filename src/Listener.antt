-- ===== src/Listener.antt =====
-- protosocket-connection/src/socket_listener.rs: what a listener answers, and the listeners for TCP and
-- for TLS. Sockets, tokio's listener and its JoinSet, and the handshakes are parameters.
pub mod InFlight
pub mod Handshakes
pub mod Serving
use protosocket.Prelude.{
  Poll, ready, pending, Run, done, starved, ◌>>=◌, ℕ, zero, suc, ◌-◌, ◌^◌, min, Bool, true, List,
  [], ◌∷◌, Option, none, some,
}
use protosocket.Reactor.{Stream}

-- `SocketResult`
pub data SocketResult (S : Type 0) : Type 0 where
  stream : S → SocketResult S
  disconnect : SocketResult S

-- `SocketListener`, of state `L`.
pub record SocketListener (L S : Type 0) : Type 0 where
  pub poll_accept : L → L × Poll (SocketResult S)

-- `StreamWithAddress`
pub record StreamWithAddress (S A : Type 0) : Type 0 where
  pub stream : S
  pub address : A

-- Its `AsyncRead` and `AsyncWrite`, in the part that a connection calls.
module _ {S A : Type 0} (inner : Stream S) where
  pub carry : {X : Type 0} → StreamWithAddress S A → S × X → StreamWithAddress S A × X
  carry s (inner_stream, answer) = (record s { stream = inner_stream }, answer)

  unfoldable pub stream_with_address : Stream (StreamWithAddress S A)
  unfolding carry
  stream_with_address = record {
    poll_read = λ s room. carry s (inner.poll_read s.stream room);
    poll_write_vectored = λ s slices. carry s (inner.poll_write_vectored s.stream slices);
    poll_flush = λ s. carry s (inner.poll_flush s.stream);
  }

-- The calls on a socket that is being made ready to listen; `with_time` is a keepalive's duration.
pub data SocketCall (A : Type 0) : Type 0 where
  set_nonblocking set_tcp_nodelay set_reuse_port set_reuse_address : Bool → SocketCall A
  set_tcp_keepalive : (with_time : Option ℕ) → SocketCall A
  bind : A → SocketCall A
  listen_on : ℕ → SocketCall A

-- A result of a call that may fail with an io error of type `E`.
pub data Attempt (E X : Type 0) : Type 0 where
  ok : X → Attempt E X
  failed : E → Attempt E X

module _ {A K E : Type 0} where
  -- `?` after each call.
  unfoldable pub call_all :
      (K → SocketCall A → Attempt E K) → Attempt E K → List (SocketCall A) → Attempt E K
  call_all call (failed e) calls = failed e
  call_all call (ok socket) [] = ok socket
  call_all call (ok socket) (c ∷ calls) = call_all call (call socket c) calls

  -- `TcpSocketListener::listen`: `new_socket` opens a socket of the domain of an address, and
  -- `from_std` makes tokio's listener of it.
  unfoldable pub tcp_listen :
      {L : Type 0}
      → (A → Attempt E K)
      → (K → SocketCall A → Attempt E K)
      → (K → Attempt E L)
      → A
      → ℕ
      → Option ℕ
      → Attempt E L
  unfolding call_all
  tcp_listen new_socket call from_std address listen_backlog tcp_keepalive_duration =
      elim (call_all call (new_socket address) (
        set_nonblocking true
        ∷ set_tcp_nodelay true
        ∷ set_tcp_keepalive tcp_keepalive_duration
        ∷ set_reuse_port true
        ∷ set_reuse_address true
        ∷ bind address
        ∷ listen_on (min listen_backlog (2 ^ 31 - 1))
        ∷ [])) [ failed e ↦ failed e | ok socket ↦ from_std socket ]

-- `TcpSocketListener::poll_accept`: `accept` polls tokio's listener, and `set_nodelay` is tried on the
-- new stream, where a failure is only logged.
module _ {L S A E : Type 0} (accept : L → L × Poll (Attempt E (S × A))) (set_nodelay : S → S) where
  unfoldable pub on_accepted :
      Poll (Attempt E (S × A)) → Poll (SocketResult (StreamWithAddress S A))
  on_accepted (ready (ok (s, address))) =
      ready (SocketResult.stream (record { stream = set_nodelay s; address = address }))
  on_accepted (ready (failed e)) = ready disconnect
  on_accepted pending = pending

  unfoldable pub tcp_listener : SocketListener L (StreamWithAddress S A)
  unfolding on_accepted
  tcp_listener = record { poll_accept = λ l. let (l', p) = accept l in (l', on_accepted p) }

-- What is asked of a `JoinSet` of state `J`, whose tasks are handshakes `H` with an address: a task's
-- result is a TLS stream `T` or an error, or the task could not be joined.
pub record JoinSet (J H T A E : Type 0) : Type 0 where
  pub spawn : J → H × A → J
  pub poll_join_next : J → J × Poll (Option (Attempt E (Attempt E T × A)))

pub record TlsSocketListener (L J : Type 0) : Type 0 where
  pub listener : L
  pub in_flight_connections : J

-- `TlsSocketListener::wrap`, with an empty JoinSet.
unfoldable pub wrap_tls : {L J : Type 0} → L → J → TlsSocketListener L J
wrap_tls listener no_connections = record {
  listener = listener;
  in_flight_connections = no_connections;
}

module _ {L J S H T A E : Type 0} (tcp : SocketListener L (StreamWithAddress S A))
    (tls_accept : S → H) (set : JoinSet J H T A E) where
  -- The first loop. It goes on with an accepted stream; what ends it is a disconnect (`true`) or that
  -- nothing is there to accept.
  unfoldable pub accept_loop : ℕ → TlsSocketListener L J → Run (TlsSocketListener L J × Bool)
  accept_loop zero t = starved
  accept_loop (suc fuel) t =
      let (l, p) = tcp.poll_accept t.listener in
      elim p [
        | pending ↦ done (record t { listener = l }, Bool.false)
        | ready r ↦ elim r [
          | disconnect ↦ done (record t { listener = l }, true)
          | SocketResult.stream s ↦ accept_loop fuel (record {
            listener = l;
            in_flight_connections =
                set.spawn t.in_flight_connections (tls_accept s.stream, s.address);
          })
        ]
      ]

  -- The second loop. It goes on after a handshake that failed.
  unfoldable pub join_loop :
      ℕ
      → TlsSocketListener L J
      → Run (TlsSocketListener L J × Poll (SocketResult (StreamWithAddress T A)))
  join_loop zero t = starved
  join_loop (suc fuel) t =
      let (j, p) = set.poll_join_next t.in_flight_connections in
      let t' = record t { in_flight_connections = j } in
      elim p [
        | pending ↦ done (t', pending)
        | ready none ↦ done (t', pending)
        | ready (some (failed e)) ↦ done (t', ready disconnect)
        | ready (some (ok (ok s, address))) ↦
            done (t', ready (SocketResult.stream (record { stream = s; address = address })))
        | ready (some (ok (failed e, address))) ↦ join_loop fuel t'
      ]

  -- `TlsSocketListener::poll_accept`, with fuel for each loop.
  unfoldable pub tls_poll_accept :
      ℕ
      → ℕ
      → TlsSocketListener L J
      → Run (TlsSocketListener L J × Poll (SocketResult (StreamWithAddress T A)))
  unfolding accept_loop join_loop
  tls_poll_accept fuel fuel' t = accept_loop fuel t >>= λ o. elim (o.1) [
    | true ↦ done (o.0, ready disconnect)
    | Bool.false ↦ join_loop fuel' (o.0)
  ]
