-- ===== src/Rpc/RpcSubmitter.antt =====
-- protosocket-rpc/src/server/rpc_submitter.rs and abortion_tracker.rs: the reactor of a server's
-- connection.
pub mod Spending
pub mod Turns
pub mod Handles
use protosocket.Prelude.{
  Poll, ready, pending, Run, done, starved, ◌>>=◌, ℕ, zero, suc, ◌+◌, Bool, true, false,
  if◌then◌else◌, ltb, List, [], ◌∷◌, Option, none, some,
}
use protosocket.Prelude.Assoc.{lookup, remove, insert}
use protosocket.Codec.{Encoder, ReactorStatus, go_on}
use protosocket.SendBudget
use protosocket.SendBudget.{SendBudget, SendPermit}
use protosocket.Rpc.Message.{Message, ProtosocketControlCode, normal, cancel, end}
use protosocket.Rpc.ServerTraits.{RpcKind, unary, streaming, ConnectionService}
use protosocket.Rpc.RpcStream
use protosocket.Rpc.RpcStream.{
  Heap, mark_aborted, RpcStream, RpcStreamEvent, item, complete, finished, cancelled, is_terminal,
  Service, new_unary, new_streaming,
}

-- futures' `FuturesUnordered` over the rpcs of a connection. A poll of the pool polls the rpcs that
-- are ready, which may touch their cells, and gives what the first one that answered said, with the
-- rest of it.
pub record Pool (P F S T : Type 0) : Type 0 where
  pub push : P → RpcStream F S → P
  pub poll_next :
      Heap → P → Heap × P × Poll (Option (Option (ℕ × RpcStreamEvent T) × RpcStream F S))

-- `AbortionTracker`: the abort handles, by message id. A handle is the address of its cell.
abbrev pub AbortionTracker : Type 0
AbortionTracker = List (ℕ × ℕ)

-- `RpcSubmitter`, with the cells that the rpcs share with their handles.
pub record RpcSubmitter (C P : Type 0) : Type 0 where
  pub connection_server : C
  pub aborts : AbortionTracker
  pub rejections : List ℕ  -- the last one first
  pub rpcs : P
  pub cells : Heap

module _ {C P : Type 0} where
  unfoldable pub new : C → P → RpcSubmitter C P
  new connection_server rpcs = record {
    connection_server = connection_server;
    aborts = [];
    rejections = [];
    rpcs = rpcs;
    cells = [];
  }

  -- `AbortionTracker::register`
  unfoldable pub register : RpcSubmitter C P → ℕ → ℕ → RpcSubmitter C P
  register r id handle = record r { aborts = insert r.aborts id handle }

  -- `AbortionTracker::take_abort`: the handle is gone from the tracker.
  unfoldable pub take_abort : RpcSubmitter C P → ℕ → Option ℕ × RpcSubmitter C P
  take_abort r id = (lookup r.aborts id, record r { aborts = remove r.aborts id })

module _ {C P F S I O D B : Type 0} (service : Service F S O) (pool : Pool P F S O)
    (server : ConnectionService C F S I) (request : Message I) (response : Message O)
    (encoder : Encoder D O B) where
  unfoldable pub message_for_event : RpcSubmitter C P → ℕ → RpcStreamEvent O → RpcSubmitter C P × O
  unfolding take_abort
  message_for_event r id (item t) = (r, response.set_message_id t id)
  message_for_event r id (complete t) = ((take_abort r id).1, response.set_message_id t id)
  message_for_event r id finished = ((take_abort r id).1, response.ended id)
  message_for_event r id cancelled = ((take_abort r id).1, response.cancelled id)

  -- A new rpc with its handle: tracked, and in the pool.
  unfoldable pub start : RpcSubmitter C P → ℕ → Heap × RpcStream F S × ℕ → RpcSubmitter C P
  unfolding register
  start r id (cells, rpc, handle) =
      let r' = register r id handle in record r' { rpcs = pool.push r.rpcs rpc; cells = cells }

  unfoldable pub on_new_rpc : RpcSubmitter C P → ℕ → RpcKind F S → RpcSubmitter C P
  unfolding start new_unary new_streaming
  on_new_rpc r id (unary completion) = start r id (new_unary r.cells id completion)
  on_new_rpc r id (streaming stream) = start r id (new_streaming r.cells id stream)
  on_new_rpc r id rejected = record r { rejections = id ∷ r.rejections }

  -- The handle that was taken, if there was one, aborts its rpc.
  unfoldable pub abort : Option ℕ × RpcSubmitter C P → RpcSubmitter C P
  unfolding mark_aborted
  abort (some handle, r) = record r { cells = mark_aborted r.cells handle }
  abort (none, r) = r

  unfoldable pub on_code : RpcSubmitter C P → I → ProtosocketControlCode → RpcSubmitter C P
  unfolding on_new_rpc take_abort abort
  on_code r message normal =
      let (connection_server, kind) = server.new_rpc r.connection_server message in
      on_new_rpc (record r { connection_server = connection_server }) (request.message_id message)
        kind
  on_code r message cancel = abort (take_abort r (request.message_id message))
  on_code r message end = r

  unfoldable pub on_inbound_message : RpcSubmitter C P → I → RpcSubmitter C P × ReactorStatus
  unfolding on_code
  on_inbound_message r message = (on_code r message (request.control_code message), go_on)

  unfoldable pub on_outbound_message : RpcSubmitter C P → O → RpcSubmitter C P × O
  on_outbound_message r response = (r, response)

  unfoldable pub poll : RpcSubmitter C P → RpcSubmitter C P × Bool
  poll r =
      let (connection_server, stop) = server.poll r.connection_server in
      (record r { connection_server = connection_server }, stop)

  -- The reactor, the budget and `produced`.
  abbrev pub Turn : Type 0
  Turn = RpcSubmitter C P × SendBudget D B × ℕ

  -- Rejected rpcs first, the last one first.
  unfoldable pub send_rejections : List ℕ → Turn → Turn
  unfolding SendBudget.reserve SendBudget.send
  send_rejections [] (r, b, produced) = (record r { rejections = [] }, b, produced)
  send_rejections (message_id ∷ rejections) (r, b, produced) = elim (SendBudget.reserve b) [
    | none ↦ (record r { rejections = message_id ∷ rejections }, b, produced)
    | some permit ↦
        send_rejections rejections
          (r, SendBudget.send encoder permit (response.cancelled message_id), produced + 1)
  ]

  -- One event goes out under a permit.
  unfoldable pub send_event : Turn → SendPermit D B → ℕ × RpcStreamEvent O → Turn
  unfolding message_for_event SendBudget.send
  send_event (r, b, produced) permit (id, event) =
      let (r', m) = message_for_event r id event in
      (r', SendBudget.send encoder permit m, produced + 1)

  -- What a poll of the rpc that is being drained leads to: whether it has retired, the rpc and the
  -- turn, or another round.
  unfoldable pub on_answer :
      Turn
      → SendPermit D B
      → RpcStream F S
      → (Turn → Run (Bool × RpcStream F S × Turn))
      → Poll (Option (ℕ × RpcStreamEvent O))
      → Run (Bool × RpcStream F S × Turn)
  unfolding send_event is_terminal
  on_answer t permit rpc again pending = done (false, rpc, t)
  on_answer t permit rpc again (ready none) = done (true, rpc, t)
  on_answer t permit rpc again (ready (some event)) =
      let t' = send_event t permit event in
      if is_terminal (event.1) then done (true, rpc, t') else again t'

  -- An rpc that is ready is polled for as long as it is, and there is room. `rounds` is above what
  -- remains of the budget.
  unfoldable pub drain_rpc : ℕ → Turn → RpcStream F S → Run (Bool × RpcStream F S × Turn)
  unfolding on_answer
  drain_rpc zero t rpc = starved
  drain_rpc (suc rounds) (r, b, produced) rpc = elim (SendBudget.reserve b) [
    | none ↦ done (false, rpc, (r, b, produced))
    | some permit ↦
        let (cells, rpc', p) = RpcStream.poll_next service r.cells rpc in
        on_answer (record r { cells = cells }, b, produced) permit rpc'
          (λ t. drain_rpc rounds t rpc') p
  ]

  -- An rpc that has not retired goes back to the pool.
  abbrev pub keep_rpc : Bool × RpcStream F S × Turn → Turn
  keep_rpc (retired, rpc, (r, b, produced)) =
      (if retired then r else record r { rpcs = pool.push r.rpcs rpc }, b, produced)

  -- What the pool gave goes out, and the rpc is drained.
  unfoldable pub serve : Turn → SendPermit D B → ℕ × RpcStreamEvent O → RpcStream F S → Run Turn
  unfolding drain_rpc send_event is_terminal
  serve t permit event rpc =
      let (r, b, produced) = send_event t permit event in
      if is_terminal (event.1)
      then done (r, b, produced)
      else (drain_rpc (suc b.remaining) (r, b, produced) rpc >>= λ o. done (keep_rpc o))

  -- What a poll of the pool leads to.
  unfoldable pub on_given :
      Turn
      → SendPermit D B
      → (Turn → Run Turn)
      → Poll (Option (Option (ℕ × RpcStreamEvent O) × RpcStream F S))
      → Run Turn
  unfolding serve
  on_given t permit again pending = done t
  on_given t permit again (ready none) = done t
  on_given t permit again (ready (some (none, rpc))) = again t
  on_given t permit again (ready (some (some event, rpc))) = serve t permit event rpc >>= again

  -- The rpcs of the pool, until there is no room or none is ready.
  unfoldable pub poll_rpcs : ℕ → Turn → Run Turn
  unfolding on_given
  poll_rpcs zero t = starved
  poll_rpcs (suc rounds) (r, b, produced) = elim (SendBudget.reserve b) [
    | none ↦ done (r, b, produced)
    | some permit ↦
        let (cells, rpcs, p) = pool.poll_next r.cells r.rpcs in
        on_given (record r { cells = cells; rpcs = rpcs }, b, produced) permit (poll_rpcs rounds) p
  ]

  -- `Ready(Some(()))` is `true`, and `Pending` is `false`.
  unfoldable pub poll_outbound_many :
      ℕ → RpcSubmitter C P → SendBudget D B → Run (RpcSubmitter C P × SendBudget D B × Bool)
  unfolding send_rejections poll_rpcs
  poll_outbound_many rounds r b = poll_rpcs rounds (send_rejections r.rejections (r, b, 0)) >>= λ t.
      done (t.0, t.1, ltb 0 (t.2))
