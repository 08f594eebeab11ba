-- ===== src/Connection/State.antt =====
-- protosocket-connection/src/connection.rs: the struct, and `Connection::new`.
use protosocket.Prelude.{ℕ, List, []}
use protosocket.Spillway.Receiver.{Receiver}

-- The stream has state `S`, the codec `D` and the reactor `R`; `B` are the serialized buffers and `L`
-- the logical outbound messages.
pub record Connection (S D R B L : Type 0) : Type 0 where
  pub stream : S
  pub outbound_messages : Receiver L
  pub send_buffer : List B
  pub receive_buffer_unread_index : ℕ
  pub receive_buffer : List ℕ
  pub max_buffer_length : ℕ
  pub max_queued_send_messages : ℕ
  pub buffer_allocation_increment : ℕ
  pub codec : D
  pub reactor : R

-- `ReadBufferState`
pub data ReadBufferState : Type 0 where
  pending more_to_read disconnected error : ReadBufferState

module _ {S D R B L : Type 0} where
  unfoldable pub new : S → D → ℕ → ℕ → ℕ → Receiver L → R → Connection S D R B L
  new stream codec max_buffer_length buffer_allocation_increment max_queued_send_messages
        outbound_messages reactor =
      record {
        stream = stream;
        outbound_messages = outbound_messages;
        send_buffer = [];
        receive_buffer = [];
        max_buffer_length = max_buffer_length;
        max_queued_send_messages = max_queued_send_messages;
        receive_buffer_unread_index = 0;
        buffer_allocation_increment = buffer_allocation_increment;
        codec = codec;
        reactor = reactor;
      }
