-- ===== src/Tests/RpcClient.antt =====
-- An rpc client and its connection.
use protosocket.Prelude.{
  ℕ, if◌then◌else◌, ◌==◌, ◌+◌, ◌≡◌, ◌⊎◌, inl, refl, Bool, true, false, List, [], ◌∷◌, some, none,
  arith,
}
use protosocket.Prelude.Assoc.{lookup}
use protosocket.Spillway.Shared.{Shared}
use protosocket.Spillway.Sender
use protosocket.Spillway.Receiver.{Receiver, channel}
use protosocket.Spillway.Receiver.Handed.{cloned, cloned-IsOpen}
use protosocket.Spillway.Sending.{Delivers}
use protosocket.Rpc.Alive.{Flags, load}
use protosocket.Listener.{Attempt, ok, SocketCall}
use protosocket.Rpc.Message.{Message, ProtosocketControlCode, normal, cancel, end}
use protosocket.Rpc.CompletionReactor.{unary, RpcNotification, RpcCompletionReactor}
use protosocket.Rpc.Completions
use protosocket.Rpc.Completions.{
  CompletionGuard, RpcClient, send_message, err, connection_is_closed,
}
use protosocket.Rpc.RpcClient.{Configuration, connect}
use protosocket.Rpc.RpcClient.Sending.{notification, send_message-Delivers}
use protosocket.Rpc.RpcClient.Overtaking.{hasty, hasty-overtakes}
use protosocket.Rpc.RpcClient.Connecting.{Connects, connect-Connects}

abbrev Note : Type 0
Note = ℕ × ProtosocketControlCode × ℕ

abbrev note_message : Message Note
note_message = record {
  message_id = λ m. m.0;
  control_code = λ m. m.1;
  set_message_id = λ m id. (id, m.1, m.2);
  cancelled = λ id. (id, cancel, 0);
  ended = λ id. (id, end, 0);
}

abbrev everyone : ℕ → Bool
everyone c = true

abbrev caller : RpcClient
caller = record { submission_queue = record { chute = 1 }; is_alive = 2 }

-- Of the flags 0, 1 and 2 the middle one is cleared.
abbrev flags : Flags
flags = record { next = 3; value = λ flag. if flag == 1 then false else true }

abbrev queue : Receiver (RpcNotification Note)
queue = record (channel.1) { shared = (cloned (RpcNotification Note)).1 }

abbrev question : Note
question = (4, normal, 9)

send_message-Delivers_example :
    ((load flags caller.is_alive ≡ false)
      × (send_message note_message flags caller queue.shared (unary 3) question
          ≡ some (err connection_is_closed, queue.shared)))
    ⊎ ((load flags caller.is_alive ≡ true)
        × (g : CompletionGuard) × (s0 s' : Shared (RpcNotification Note)) × (send_message
              note_message flags caller queue.shared
              (unary 3)
              question
            ≡ some (Completions.ok g, s'))
        × (g.closed ≡ false)
        × (g.message_id ≡ 4)
        × (Sender.clone caller.submission_queue queue.shared ≡ some (g.raw_submission_queue, s0))
        × Delivers
            (record queue { shared = s0 })
            1
            (notification note_message (unary 3) question ∷ [])
            s')
unfolding channel Sender.clone Sender.drop_last
send_message-Delivers_example =
    send_message-Delivers note_message flags caller queue (unary 3) question
      (cloned-IsOpen (RpcNotification Note)).0.valid refl (omega arith) (omega arith) (inl refl)

hasty-overtakes_example :
    (m : RpcCompletionReactor (Unit {0}) Note) × (hasty everyone note_message note_message flags tt
        (unary 3)
        (unary 4)
        (1, normal, 7)
        question
      ≡ some ((1, normal, 7) ∷ (4, cancel, 0) ∷ question ∷ [], m))
    × (lookup m.rpc_registry 4 ≡ some (unary 4))
hasty-overtakes_example =
    hasty-overtakes everyone note_message note_message flags tt (unary 3) (unary 4) (1, normal, 7)
      question

abbrev configuration : Configuration (Unit {0})
configuration = record {
  max_buffer_length = 64;
  buffer_allocation_increment = 16;
  max_queued_outbound_messages = 2;
  tcp_keepalive_duration = none;
  stream_connector = tt;
}

-- Every call succeeds.
abbrev dial : ℕ → Attempt ℕ ℕ
dial address = ok address

abbrev set_option : ℕ → SocketCall ℕ → Attempt ℕ ℕ
set_option socket c = ok (socket + 1)

abbrev plain : Unit {0} → ℕ → Attempt ℕ ℕ
plain g socket = ok socket

connect-Connects_example :
    Connects Note
      (List ℕ)
      Note
      dial
      set_option
      plain
      tt
      tt
      80
      configuration
      flags
      (connect dial set_option plain tt tt 80 configuration flags)
connect-Connects_example =
    connect-Connects Note (List ℕ) Note dial set_option plain tt tt 80 configuration flags
