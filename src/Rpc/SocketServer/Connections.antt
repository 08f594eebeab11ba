-- ===== src/Rpc/SocketServer/Connections.antt =====
-- The connections that an rpc server spawns (protosocket-rpc/src/server/socket_server.rs).
use protosocket.Prelude.{
  Poll, ready, pending, done, ℕ, ◌<◌, ◌≡◌, refl, sym, ap, ◌∙◌, if◌then◌else◌, List, [], ◌∷◌, ◌++◌,
  length, none, some, append_assoc, append-nil,
}
use protosocket.Spillway.Receiver.{Receiver, poll_next}
use protosocket.Spillway.Receiver.Handed.{IsOpen, channel-waits, without, last_drop-ends}
use protosocket.Connection.State
use protosocket.Connection.State.{Connection}
use protosocket.Listener.{SocketListener, SocketResult}
use protosocket.Listener.InFlight.{Accepts, IsLast, closes}
use protosocket.Listener.Serving.{Spawned, serve_all, serve_loop-serve_all}
use protosocket.Rpc.RpcSubmitter
use protosocket.Rpc.RpcSubmitter.{RpcSubmitter}
use protosocket.Rpc.SocketServer.{SocketService, SocketRpcServer, serve, poll}

module _ {C L S D K P B O : Type 0} (service : SocketService C D K S) (no_rpcs : P) where
  -- A connection that was handed to be spawned for the stream `s` by a server with these settings: it
  -- has the stream, nothing received and nothing serialized, and a new RpcSubmitter for the service
  -- that was made for the stream. Its channel is open and has nothing in it and one sender, so that
  -- its receiver waits; and however often it is polled, once that sender is dropped it has ended.
  pub record Hosted (v : SocketRpcServer C L S D K P B O) (s : S)
      (c : Spawned (Connection S D (RpcSubmitter K P) B O)) : Type 0 where
    pub stream : c.connection.stream ≡ s
    pub limits :
        (c.connection.max_buffer_length ≡ v.max_buffer_length)
        × (c.connection.buffer_allocation_increment ≡ v.buffer_allocation_increment)
        × (c.connection.max_queued_send_messages ≡ v.max_queued_outbound_messages)
    pub fresh :
        (c.connection.send_buffer ≡ [])
        × (c.connection.receive_buffer ≡ [])
        × (c.connection.receive_buffer_unread_index ≡ 0)
    pub waits :
        IsOpen c.connection.outbound_messages
        × (c.connection.outbound_messages.shared.senders ≡ 1)
        × (r : Receiver O) × (poll_next c.connection.outbound_messages ≡ some (pending, r))
        × IsOpen r
        × (r.shared.senders ≡ 1)
    pub ends :
        (r : Receiver O)
        → IsOpen r
        → r.shared.senders ≡ 1
        → (r' : Receiver O) × (poll_next (without c.then_dropped r) ≡ some (ready none, r'))
    pub reactor :
        (before : C) × (c.connection.reactor
          ≡ RpcSubmitter.new (service.new_stream_service before s).1 no_rpcs)

  abbrev pub AllHosted :
      SocketRpcServer C L S D K P B O
      → List S
      → List (Spawned (Connection S D (RpcSubmitter K P) B O))
      → Type 0
  AllHosted v [] [] = Unit
  AllHosted v (s ∷ ss) (c ∷ cs) = Hosted v s c × AllHosted v ss cs
  AllHosted v _ _ = ⊥

  serve-Hosted :
      (v : SocketRpcServer C L S D K P B O) (s : S)
      → (c : Spawned (Connection S D (RpcSubmitter K P) B O)) × ((serve service no_rpcs v s).spawned
          ≡ v.spawned ++ c ∷ [])
        × Hosted v s c
  unfolding serve State.new
  serve-Hosted v s = (
    _,
    refl,
    record {
      stream = refl;
      limits = (refl, refl, refl);
      fresh = (refl, refl, refl);
      waits = channel-waits O;
      ends = last_drop-ends _;
      reactor = (v.socket_server, refl);
    },
  )

  -- The settings are those of the server before it served.
  AllHosted-serve :
      (v : SocketRpcServer C L S D K P B O) (x : S) (xs : List S)
      (cs : List (Spawned (Connection S D (RpcSubmitter K P) B O)))
      → AllHosted (serve service no_rpcs v x) xs cs
      → AllHosted v xs cs
  unfolding serve
  AllHosted-serve v x [] [] h = tt
  AllHosted-serve v x [] (c ∷ cs) h = absurd h
  AllHosted-serve v x (s ∷ ss) [] h = absurd h
  AllHosted-serve v x (s ∷ ss) (c ∷ cs) h = (
    record {
      stream = h.0.stream;
      limits = h.0.limits;
      fresh = h.0.fresh;
      waits = h.0.waits;
      ends = h.0.ends;
      reactor = h.0.reactor;
    },
    AllHosted-serve v x ss cs h.1,
  )

  serve_all-AllHosted :
      (xs : List S) (v : SocketRpcServer C L S D K P B O)
      → (cs : List (Spawned (Connection S D (RpcSubmitter K P) B O))) × ((serve_all
            (serve service no_rpcs)
            v
            xs).spawned
          ≡ v.spawned ++ cs)
        × AllHosted v xs cs
  serve_all-AllHosted [] v = ([], sym (append-nil v.spawned), tt)
  serve_all-AllHosted (x ∷ xs) v =
      let (c, e, made) = serve-Hosted v x in
      let (cs, e', rest) = serve_all-AllHosted xs (serve service no_rpcs v x) in
      (
        c ∷ cs,
        e' ∙ ap (λ ds. ds ++ cs) e ∙ append_assoc v.spawned (c ∷ []) cs,
        (made, AllHosted-serve v x xs cs rest),
      )

  -- One poll of an rpc server ends, over a listener that answers finitely many streams and then waits
  -- or closes, with fuel above their number. It hands on one connection for each of the streams, in
  -- order, made with the server's settings and with a new RpcSubmitter. The connection's queue of
  -- outbound messages is open and has nothing in it and one sender, which is dropped when the
  -- connection was handed on: till then a poll of the queue waits and leaves it so, and after that it
  -- has ended. The poll is done exactly if the listener closes.
  pub poll-Hosts :
      (listener : SocketListener L S) (fuel : ℕ) (xs : List S) (v : SocketRpcServer C L S D K P B O)
      (last : Poll (SocketResult S)) (l' : L)
      → length xs < fuel
      → IsLast last
      → Accepts listener v.listener xs last l'
      → (v' : SocketRpcServer C L S D K P B O) × (cs : List
          (Spawned (Connection S D (RpcSubmitter K P) B O)))
        × (poll service no_rpcs listener fuel v
            ≡ done (v', if closes last then ready tt else pending))
        × (v'.spawned ≡ v.spawned ++ cs)
        × AllHosted v xs cs
        × (v'.listener ≡ l')
  unfolding poll serve
  poll-Hosts listener fuel xs v last l' lt fin acc =
      let (cs, e, made) = serve_all-AllHosted xs v in
      (
        record (serve_all (serve service no_rpcs) v xs) { listener = l' },
        cs,
        serve_loop-serve_all listener (λ w. w.listener) (λ w l. record w { listener = l })
            (serve service no_rpcs) (λ w l. refl) (λ w l k. refl) (λ w l s. refl) fuel xs v last l'
            lt fin acc,
        e,
        made,
        refl,
      )
