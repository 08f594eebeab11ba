-- ===== src/Rpc/RpcClient/Connecting.antt =====
-- What a connect gives (protosocket-rpc/src/client/configuration.rs).
use protosocket.Prelude.{
  ready, ◌<◌, ℕ, ◌≡◌, refl, ◌∙◌, false, ◌⊎◌, inl, inr, sym, subst, true, List, [], ◌∷◌, length,
  some, arith,
}
use protosocket.Spillway.Chute
use protosocket.Spillway.Shared.{Shared}
use protosocket.Spillway.Receiver.{Receiver, channel, poll_next}
use protosocket.Spillway.Receiver.Validity.{IsValid, stored}
use protosocket.Spillway.Receiver.Fresh.{fresh-AllMarked}
use protosocket.Connection.State
use protosocket.Connection.State.{Connection}
use protosocket.Listener.{
  Attempt, ok, failed, SocketCall, set_nonblocking, set_tcp_keepalive, set_tcp_nodelay,
  set_reuse_address, call_all,
}
use protosocket.Rpc.Message.{Message}
use protosocket.Rpc.Alive.{Flags, load, new_flag, load-store, load-store_other}
use protosocket.Rpc.CompletionReactor
use protosocket.Rpc.CompletionReactor.{
  drop_reactor, Completion, RpcCompletionReactor, RpcNotification,
}
use protosocket.Rpc.Completions
use protosocket.Rpc.Completions.{connection_is_closed, CompletionGuard, RpcClient, send_message}
use protosocket.Rpc.RpcClient as Client
use protosocket.Rpc.RpcClient.{is_alive, Configuration, connect}
use protosocket.Rpc.RpcClient.Sending.{notification, sent_on}

module _ {G S D H I B O : Type 0} where
  -- The client and the connection that belong together: the client is alive, and it is gone once the
  -- connection's reactor is dropped.
  pub record Connected (configuration : Configuration G) (c : RpcClient)
      (conn : Connection S D (RpcCompletionReactor H I) B (RpcNotification O)) (flags : Flags)
      : Type 0 where
    pub alive : is_alive flags c ≡ true
    pub gone : is_alive (drop_reactor conn.reactor flags) c ≡ false
    pub refuses :
        (outbound : Message O) (s : Shared (RpcNotification O)) (completion : Completion)
        (request : O)
        → send_message outbound (drop_reactor conn.reactor flags) c s completion request
          ≡ some (Completions.err connection_is_closed, s)
    pub limits :
        (conn.max_buffer_length ≡ configuration.max_buffer_length)
        × (conn.buffer_allocation_increment ≡ configuration.buffer_allocation_increment)
        × (conn.max_queued_send_messages ≡ configuration.max_queued_outbound_messages)
    pub fresh :
        (conn.send_buffer ≡ [])
        × (conn.receive_buffer ≡ [])
        × (conn.receive_buffer_unread_index ≡ 0)
        × (conn.reactor.rpc_registry ≡ [])
    pub queue :
        IsValid conn.outbound_messages
        × (stored conn.outbound_messages ≡ 0)
        × (conn.outbound_messages.shared.senders ≡ 1)
        × (c.submission_queue.chute < length conn.outbound_messages.shared.chutes)
    -- A request that is sent is what the connection gets first from its queue.
    pub first :
        (outbound : Message O) (completion : Completion) (request : O)
        → (g : CompletionGuard) × (s : Shared (RpcNotification O)) × (r : Receiver
            (RpcNotification O))
          × (send_message outbound flags c conn.outbound_messages.shared completion request
              ≡ some (Completions.ok g, s))
          × (poll_next (record (conn.outbound_messages) { shared = s })
              ≡ some (ready (some (notification outbound completion request)), r))

Attempt-cases :
    {E X : Type 0} (a : Attempt E X) → ((e : E) × (a ≡ failed e)) ⊎ ((x : X) × (a ≡ ok x))
Attempt-cases (ok x) = inr (x, refl)
Attempt-cases (failed e) = inl (e, refl)

refused :
    {O : Type 0} (outbound : Message O) (flags : Flags) (c : RpcClient)
    (s : Shared (RpcNotification O)) (completion : Completion) (request : O)
    → load flags c.is_alive ≡ false
    → send_message outbound flags c s completion request
      ≡ some (Completions.err connection_is_closed, s)
unfolding send_message
refused outbound flags c s completion request e = rw e refl

-- An error of a chain of calls is that of one of them.
call_all-failed :
    {A K E : Type 0} (call : K → SocketCall A → Attempt E K) (a : Attempt E K)
    (calls : List (SocketCall A)) (e : E)
    → call_all call a calls ≡ failed e
    → (a ≡ failed e) ⊎ ((k : K) × (x : SocketCall A) × (call k x ≡ failed e))
unfolding call_all
call_all-failed call (failed e') calls e h = inl h
call_all-failed call (ok k) [] e h = absurd (ground arith)
call_all-failed call (ok k) (x ∷ calls) e h = elim (call_all-failed call (call k x) calls e h) [
  | inl f ↦ inr (k, x, f)
  | inr f ↦ inr f
]

module _ {G S D H A K E : Type 0} (I B O : Type 0) (tcp_connect : A → Attempt E K)
    (call : K → SocketCall A → Attempt E K) (connect_stream : G → K → Attempt E S) (handler : H)
    (codec : D) (address : A) (configuration : Configuration G) (flags : Flags) where
  -- Every flag that there was is as it was.
  abbrev pub Spares : Flags → Type 0
  Spares flags' = (flag : ℕ) → flag < flags.next → load flags' flag ≡ load flags flag

  abbrev pub Connects :
      Attempt E (RpcClient × Connection S D (RpcCompletionReactor H I) B (RpcNotification O))
        × Flags
      → Type 0
  Connects (ok (c, conn), flags') =
      Connected configuration c conn flags'
      × Spares flags'
      × Spares (drop_reactor conn.reactor flags')
  Connects (failed e, flags') =
      Spares flags'
      × ((tcp_connect address ≡ failed e)
          ⊎ (((k : K) × (x : SocketCall A) × (call k x ≡ failed e))
              ⊎ ((k : K) × (connect_stream configuration.stream_connector k ≡ failed e))))

  abbrev calls : List (SocketCall A)
  calls =
      set_nonblocking true
      ∷ set_tcp_keepalive configuration.tcp_keepalive_duration
      ∷ set_tcp_nodelay true
      ∷ set_reuse_address true
      ∷ []

  abbrev made : RpcCompletionReactor H I
  made = (CompletionReactor.new flags handler).0

  abbrev started : Flags
  started = (CompletionReactor.new {H = H} {I = I} flags handler).1

  started-Spares : Spares started
  unfolding CompletionReactor.new new_flag
  started-Spares flag h = load-store_other flags flags.next flag true h

  dropped-Spares : Spares (drop_reactor made started)
  unfolding CompletionReactor.new new_flag drop_reactor
  dropped-Spares flag h = load-store_other started flags.next flag false h ∙ started-Spares flag h

  connected :
      (stream : S)
      → Connected {G = G} {S = S} {D = D} {H = H} {I = I} {B = B} {O = O} configuration
          (Client.new (channel {T = RpcNotification O}).0 made)
          (State.new stream codec configuration.max_buffer_length
            configuration.buffer_allocation_increment configuration.max_queued_outbound_messages
            channel.1 made)
          started
  unfolding Client.new CompletionReactor.new State.new channel send_message poll_next Chute.default
      is_alive drop_reactor new_flag
  connected stream = record {
    alive = load-store flags flags.next true;
    gone = load-store started flags.next false;
    refuses = λ outbound s completion request.
        refused outbound (drop_reactor made started) _ s completion request
          (load-store started flags.next false);
    limits = (refl, refl, refl);
    fresh = (refl, refl, refl, refl);
    queue = (
      record {
        in_range = omega arith;
        marked = fresh-AllMarked (RpcNotification O) 8;
        small = omega arith;
        counted = λ ne. absurd (ne refl);
        bounded = λ ne. absurd (ne refl);
      },
      refl,
      refl,
      omega arith,
    );
    first = λ outbound completion request. (
      _,
      _,
      _,
      sent_on outbound started (Client.new (channel {T = RpcNotification O}).0 made) channel.1
          completion request _ (load-store flags flags.next true) (omega arith) refl,
      refl,
    );
  }

  -- A connect gives an error of the one of its calls that failed, or a client that is alive and a new
  -- connection with the limits of the configuration and an empty, valid queue, in which the client
  -- has the one sender. A first request of that client, whatever it is, is what the connection gets
  -- first from its queue. Once the connection's reactor is dropped the client is not alive and
  -- refuses every request. No flag that another connection has is changed by the connect, nor by
  -- that drop.
  pub connect-Connects :
      Connects (connect tcp_connect call connect_stream handler codec address configuration flags)
  unfolding connect
  connect-Connects = elim (Attempt-cases (call_all call (tcp_connect address) calls)) [
    | inl (e, f) ↦
        (let eq : connect {I = I} {B = B} {O = O} tcp_connect call connect_stream handler codec
                address configuration flags
              ≡ (failed e, flags) =
            ground (arith, f) in
          subst Connects (sym eq) (
            λ flag h. refl,
            elim (call_all-failed call (tcp_connect address) calls e f) [
              | inl first ↦ inl first
              | inr later ↦ inr (inl later)
            ],
          ))
    | inr (k, g) ↦ elim (Attempt-cases (connect_stream configuration.stream_connector k)) [
      | inl (e, f) ↦
          (let eq : connect {I = I} {B = B} {O = O} tcp_connect call connect_stream handler codec
                  address configuration flags
                ≡ (failed e, drop_reactor made started) =
              ground (arith, g, f) in
            subst Connects (sym eq) (dropped-Spares, inr (inr (k, f))))
      | inr (stream, f) ↦
          (let eq : connect {I = I} {B = B} {O = O} tcp_connect call connect_stream handler codec
                  address configuration flags
                ≡ (
                  ok (
                    Client.new (channel {T = RpcNotification O}).0 made,
                    State.new stream codec configuration.max_buffer_length
                        configuration.buffer_allocation_increment
                        configuration.max_queued_outbound_messages channel.1 made,
                  ),
                  started,
                ) =
              ground (arith, g, f) in
            subst Connects (sym eq) (connected stream, started-Spares, dropped-Spares))
    ]
  ]
