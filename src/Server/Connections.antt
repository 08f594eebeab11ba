-- ===== src/Server/Connections.antt =====
-- The connections that a server spawns (protosocket-server/src/connection_server.rs).
use protosocket.Prelude.{
  Poll, ready, pending, done, ℕ, ◌<◌, ◌≡◌, refl, sym, ap, ◌∙◌, Bool, if◌then◌else◌, List, [], ◌∷◌,
  ◌++◌, length, Option, append_assoc, append-nil,
}
use protosocket.Spillway.Sender.{Sender}
use protosocket.Spillway.Shared.{Shared}
use protosocket.Spillway.Receiver.{channel}
use protosocket.Spillway.Receiver.Handed.{IsOpen, cloned, cloned-IsOpen}
use protosocket.Connection.State
use protosocket.Connection.State.{Connection}
use protosocket.Listener.{SocketListener, SocketResult, Attempt}
use protosocket.Listener.InFlight.{Accepts, IsLast, closes}
use protosocket.Listener.Serving.{Spawned, serve_all, serve_loop-serve_all}
use protosocket.Server
use protosocket.Server.{
  ServerConnector, ProtosocketServer, ProtosocketServerConfig, ProtosocketSocketConfig, serve, poll,
  bind_tcp, socket_config, new_server,
}

module _ {C L S D R B O : Type 0} (connector : ServerConnector C D R S O) where
  -- A connection that was handed to be spawned for the stream `s` by a server with these settings: it
  -- has the stream, nothing received and nothing serialized. Its reactor and its codec are what the
  -- connector made, and its channel is what they left of an empty open one with two senders: the one
  -- that the reactor was given, and the first, which is dropped when the connection was handed on.
  pub record Made (v : ProtosocketServer C L S D R B O) (s : S) (c : Spawned (Connection S D R B O))
      : Type 0 where
    pub stream : c.connection.stream ≡ s
    pub limits :
        (c.connection.max_buffer_length ≡ v.max_buffer_length)
        × (c.connection.buffer_allocation_increment ≡ v.buffer_allocation_increment)
        × (c.connection.max_queued_send_messages ≡ v.max_queued_outbound_messages)
    pub fresh :
        (c.connection.send_buffer ≡ [])
        × (c.connection.receive_buffer ≡ [])
        × (c.connection.receive_buffer_unread_index ≡ 0)
    pub first : c.then_dropped ≡ (channel {T = O}).0
    pub made :
        (before : C) × (sender : Sender) × (shared : Shared O) × IsOpen
          (record (c.connection.outbound_messages) { shared = shared })
        × (shared.senders ≡ 2)
        × (sender.chute < length shared.chutes)
        × (let (after, reactor, shared') = connector.new_reactor before sender shared s in
            let (_, codec, shared'') = connector.codec after shared' in
            (c.connection.reactor ≡ reactor)
            × (c.connection.codec ≡ codec)
            × (c.connection.outbound_messages.shared ≡ shared''))

  abbrev pub AllMade :
      ProtosocketServer C L S D R B O → List S → List (Spawned (Connection S D R B O)) → Type 0
  AllMade v [] [] = Unit
  AllMade v (s ∷ ss) (c ∷ cs) = Made v s c × AllMade v ss cs
  AllMade v _ _ = ⊥

  serve-Made :
      (v : ProtosocketServer C L S D R B O) (s : S)
      → (c : Spawned (Connection S D R B O)) × ((serve connector v s).spawned ≡ v.spawned ++ c ∷ [])
        × Made v s c
  unfolding serve State.new
  serve-Made v s =
      let (open_, two, inside) = cloned-IsOpen O in
      (
        _,
        refl,
        record {
          stream = refl;
          limits = (refl, refl, refl);
          fresh = (refl, refl, refl);
          first = refl;
          made = (v.connector, (cloned O).0, (cloned O).1, open_, two, inside, (refl, refl, refl));
        },
      )

  -- The settings are those of the server before it served.
  AllMade-serve :
      (v : ProtosocketServer C L S D R B O) (x : S) (xs : List S)
      (cs : List (Spawned (Connection S D R B O)))
      → AllMade (serve connector v x) xs cs
      → AllMade v xs cs
  unfolding serve
  AllMade-serve v x [] [] h = tt
  AllMade-serve v x [] (c ∷ cs) h = absurd h
  AllMade-serve v x (s ∷ ss) [] h = absurd h
  AllMade-serve v x (s ∷ ss) (c ∷ cs) h = (
    record {
      stream = h.0.stream;
      limits = h.0.limits;
      fresh = h.0.fresh;
      first = h.0.first;
      made = h.0.made;
    },
    AllMade-serve v x ss cs h.1,
  )

  serve_all-AllMade :
      (xs : List S) (v : ProtosocketServer C L S D R B O)
      → (cs : List (Spawned (Connection S D R B O))) × ((serve_all (serve connector) v xs).spawned
          ≡ v.spawned ++ cs)
        × AllMade v xs cs
  serve_all-AllMade [] v = ([], sym (append-nil v.spawned), tt)
  serve_all-AllMade (x ∷ xs) v =
      let (c, e, made) = serve-Made v x in
      let (cs, e', rest) = serve_all-AllMade xs (serve connector v x) in
      (
        c ∷ cs,
        e' ∙ ap (λ ds. ds ++ cs) e ∙ append_assoc v.spawned (c ∷ []) cs,
        (made, AllMade-serve v x xs cs rest),
      )

  -- One poll of a server ends, over a listener that answers finitely many streams and then waits or
  -- closes, with fuel above their number. It hands on one connection for each of the streams, in
  -- order, made with the server's settings. The connection's channel is what the connector, in making
  -- the reactor and the codec, left of an open one with nothing in it and two senders: the one that
  -- the reactor was given, and the first, which is dropped when the connection was handed on. The poll
  -- is done exactly if the listener closes.
  pub poll-Serves :
      (listener : SocketListener L S) (fuel : ℕ) (xs : List S) (v : ProtosocketServer C L S D R B O)
      (last : Poll (SocketResult S)) (l' : L)
      → length xs < fuel
      → IsLast last
      → Accepts listener v.listener xs last l'
      → (v' : ProtosocketServer C L S D R B O) × (cs : List (Spawned (Connection S D R B O)))
        × (poll connector listener fuel v ≡ done (v', if closes last then ready tt else pending))
        × (v'.spawned ≡ v.spawned ++ cs)
        × AllMade v xs cs
        × (v'.listener ≡ l')
  unfolding poll serve
  poll-Serves listener fuel xs v last l' lt fin acc =
      let (cs, e, made) = serve_all-AllMade xs v in
      (
        record (serve_all (serve connector) v xs) { listener = l' },
        cs,
        serve_loop-serve_all listener (λ w. w.listener) (λ w l. record w { listener = l })
            (serve connector) (λ w l. refl) (λ w l k. refl) (λ w l s. refl) fuel xs v last l' lt fin
            acc,
        e,
        made,
        refl,
      )

-- The settings `nodelay` and `reuse` of a socket configuration change nothing about the server that
-- is bound: the same listener is made, and the same server.
bind_tcp-ignores :
    {A C L S D R B O E : Type 0} (listen : A → ℕ → Option ℕ → Attempt E L)
    (config : ProtosocketServerConfig) (address : A) (connector : C) (nodelay reuse : Bool)
    → bind_tcp {C = C} {L = L} {S = S} {D = D} {R = R} {B = B} {O = O} listen
        (socket_config config (Server.nodelay (Server.reuse config.socket_config reuse) nodelay))
        address
        connector
      ≡ bind_tcp listen config address connector
unfolding bind_tcp socket_config Server.nodelay Server.reuse
bind_tcp-ignores listen config address connector nodelay reuse = refl
