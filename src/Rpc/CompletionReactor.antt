-- ===== src/Rpc/CompletionReactor.antt =====
-- protosocket-rpc/src/client/reactor/completion_reactor.rs and completion_registry.rs: the reactor of
-- a client's connection, which hands responses to the rpcs that wait for them.
pub mod Routing
pub mod Delivery
use protosocket.Prelude.{
  ℕ, Bool, true, false, if◌then◌else◌, List, [], ◌∷◌, ◌++◌, Option, none, some,
}
use protosocket.Prelude.Assoc.{lookup, remove, insert}
use protosocket.Codec.{ReactorStatus, go_on}
use protosocket.Rpc.Alive.{Flags, store, new_flag}
use protosocket.Rpc.Message.{Message, ProtosocketControlCode, normal, cancel, end}

-- `Completion`: the sending end of the oneshot or of the spillway channel, by its address.
pub data Completion : Type 0 where
  unary : ℕ → Completion
  remote_streaming : ℕ → Completion

abbrev pub CompletionRegistry : Type 0
CompletionRegistry = List (ℕ × Completion)

-- What happened to the channels, in order: a message went in, or the sending end was dropped.
pub data Effect (I : Type 0) : Type 0 where
  delivered : ℕ → I → Effect I
  dropped : ℕ → Effect I

-- `RpcCompletionReactor`, with what it did to the channels so far. `is_alive` is the address of its
-- flag, which `alive_handle` gives.
pub record RpcCompletionReactor (H I : Type 0) : Type 0 where
  pub rpc_registry : CompletionRegistry
  pub is_alive : ℕ
  pub unregistered_message_handler : H
  pub effects : List (Effect I)

-- `CompletableRpc`
pub record CompletableRpc (O : Type 0) : Type 0 where
  pub message_id : ℕ
  pub completion : Completion
  pub request : O

-- `RpcNotification`
pub data RpcNotification (O : Type 0) : Type 0 where
  new_rpc : CompletableRpc O → RpcNotification O
  cancel_rpc : ℕ → RpcNotification O

abbrev pub address : Completion → ℕ
address (unary c) = c
address (remote_streaming c) = c

-- The sending end that was removed or replaced, if there was one, is dropped.
abbrev pub drop_end : {I : Type 0} → Option Completion → List (Effect I)
drop_end none = []
drop_end (some completion) = dropped (address completion) ∷ []

module _ {H I : Type 0} where
  unfoldable pub new : Flags → H → RpcCompletionReactor H I × Flags
  unfolding new_flag
  new flags handler =
      let (is_alive, flags') = new_flag flags true in
      (
        record {
          rpc_registry = [];
          is_alive = is_alive;
          unregistered_message_handler = handler;
          effects = [];
        },
        flags',
      )

  unfoldable pub alive_handle : RpcCompletionReactor H I → ℕ
  alive_handle r = r.is_alive

  -- `Drop`: all clients see that the connection is gone.
  unfoldable pub drop_reactor : RpcCompletionReactor H I → Flags → Flags
  unfolding store
  drop_reactor r flags = store flags r.is_alive false

  -- `CompletionRegistry::deregister`
  unfoldable pub deregister : RpcCompletionReactor H I → ℕ → RpcCompletionReactor H I
  deregister r message_id = record r {
    rpc_registry = remove r.rpc_registry message_id;
    effects = r.effects ++ drop_end (lookup r.rpc_registry message_id);
  }

  -- A message goes into a channel whose receiver is still there.
  abbrev pub deliver : RpcCompletionReactor H I → ℕ → I → RpcCompletionReactor H I
  deliver r channel message = record r { effects = r.effects ++ delivered channel message ∷ [] }

-- `accepts` says which receivers are still there, and `on_message` is the handler of messages that
-- nobody waits for; it may change the registry.
module _ {H I O : Type 0} (accepts : ℕ → Bool)
    (on_message : RpcCompletionReactor H I → I → RpcCompletionReactor H I) (inbound : Message I)
    (outbound : Message O) where
  -- The entry of the message's id in the registry.
  unfoldable pub on_entry :
      RpcCompletionReactor H I → I → ℕ → Option Completion → RpcCompletionReactor H I
  unfolding deregister
  on_entry r message message_id (some (remote_streaming channel)) =
      if accepts channel then deliver r channel message else deregister r message_id
  on_entry r message message_id (some (unary channel)) =
      let r' = record r { rpc_registry = remove r.rpc_registry message_id } in
      if accepts channel then deliver r' channel message else r'
  on_entry r message message_id none = on_message r message

  unfoldable pub on_code :
      RpcCompletionReactor H I → I → ProtosocketControlCode → RpcCompletionReactor H I
  unfolding on_entry deregister
  on_code r message normal =
      let message_id = inbound.message_id message in
      on_entry r message message_id (lookup r.rpc_registry message_id)
  on_code r message cancel = deregister r (inbound.message_id message)
  on_code r message end = deregister r (inbound.message_id message)

  unfoldable pub on_inbound_message :
      RpcCompletionReactor H I → I → RpcCompletionReactor H I × ReactorStatus
  unfolding on_code
  on_inbound_message r message = (on_code r message (inbound.control_code message), go_on)

  unfoldable pub on_outbound_message :
      RpcCompletionReactor H I → RpcNotification O → RpcCompletionReactor H I × O
  unfolding deregister
  on_outbound_message r (new_rpc rpc) = (
    record r {
      rpc_registry = insert r.rpc_registry rpc.message_id rpc.completion;
      effects = r.effects ++ drop_end (lookup r.rpc_registry rpc.message_id);
    },
    rpc.request,
  )
  on_outbound_message r (cancel_rpc message_id) =
      (deregister r message_id, outbound.cancelled message_id)

-- `DoNothingMessageHandler`
unfoldable pub do_nothing : {H I : Type 0} → RpcCompletionReactor H I → I → RpcCompletionReactor H I
do_nothing r message = r
