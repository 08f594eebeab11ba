-- ===== src/Rpc/Hosting.antt =====
-- The connection of an rpc server: RpcSubmitter (protosocket-rpc/src/server/rpc_submitter.rs) as the
-- MessageReactor of a Connection (protosocket-connection/src/connection.rs).
use protosocket.Prelude.{
  Poll, ready, pending, Run, done, panic, starved, ℕ, suc, ◌+◌, ◌≤◌, ◌<◌, sym, subst, Bool,
  if◌then◌else◌, List, Option, some, arith,
}
use protosocket.Codec.{Codec}
use protosocket.SendBudget.{SendBudget, Spends}
use protosocket.Reactor.{MessageReactor, Stream, Buf}
use protosocket.Connection.State.{Connection}
use protosocket.Connection.Receive.Consumes.{IsHonest}
use protosocket.Connection.Receive.Totality.{IsFinite}
use protosocket.Connection.Send.Wire.{IsContiguous}
use protosocket.Connection.Send.Draining.{IsThrifty}
use protosocket.Connection.Send.Attempts.{IsWritable}
use protosocket.Connection.Driving.{IsDuplex, IsLive, Drives, poll-Drives}
use protosocket.Rpc.Message.{Message}
use protosocket.Rpc.ServerTraits.{ConnectionService}
use protosocket.Rpc.RpcStream.{Service}
use protosocket.Rpc.RpcSubmitter
use protosocket.Rpc.RpcSubmitter.{Pool, RpcSubmitter}
use protosocket.Rpc.RpcSubmitter.Turns.{IsPool, poll_outbound_many-Spends}

module _ {C P F S I O D B : Type 0} (service : Service F S O) (pool : Pool P F S O)
    (server : ConnectionService C F S I) (request : Message I) (response : Message O)
    (codec : Codec D I O B) (size : P → ℕ) where
  -- What the turn came to. It never starves on the rounds that it gets, and never panics.
  abbrev answered :
      RpcSubmitter C P
      → SendBudget D B
      → Run (RpcSubmitter C P × SendBudget D B × Bool)
      → RpcSubmitter C P × SendBudget D B × Poll (Option (Unit {0}))
  answered r b (done (r', b', emitted)) = (r', b', if emitted then ready (some tt) else pending)
  answered r b panic = (r, b, pending)
  answered r b starved = (r, b, pending)

  -- `impl MessageReactor for RpcSubmitter`, with the rounds that a turn needs.
  unfoldable pub submitter_reactor : MessageReactor (RpcSubmitter C P) D B I O O
  unfolding RpcSubmitter.on_inbound_message RpcSubmitter.poll RpcSubmitter.on_outbound_message
      RpcSubmitter.poll_outbound_many
  submitter_reactor = record {
    on_inbound_message =
        RpcSubmitter.on_inbound_message service pool server request response codec.encoder;
    poll = RpcSubmitter.poll service pool server request response codec.encoder;
    on_outbound_message =
        RpcSubmitter.on_outbound_message service pool server request response codec.encoder;
    poll_outbound_many = λ r b. answered r b (
        RpcSubmitter.poll_outbound_many service pool server request response codec.encoder
          (suc (b.remaining + b.remaining + size r.rpcs)) r b);
  }

  module _ (law : IsPool pool size) where
    -- A turn with enough rounds, and what it makes of the budget.
    submitter-Spends :
        (r : RpcSubmitter C P) (b : SendBudget D B)
        → Spends codec.encoder b (submitter_reactor.poll_outbound_many r b).1
    unfolding submitter_reactor
    submitter-Spends r b =
        let (r', b', emitted, e, spends) =
          poll_outbound_many-Spends service pool server request response codec.encoder size
            (suc (b.remaining + b.remaining + size r.rpcs)) r b law (omega arith) in
        subst (λ o. Spends codec.encoder b (answered r b o).1) (sym e) spends

    module _ {T : Type 0} (stream : Stream T) (buf : Buf B) (contents : B → List ℕ)
        (buf_law : IsContiguous buf contents) (sent : T → List ℕ) (left : T → ℕ)
        (writable : IsWritable stream sent left) (duplex : IsDuplex stream sent left) where
      submitter_reactor-IsThrifty : IsThrifty stream buf codec submitter_reactor
      submitter_reactor-IsThrifty = submitter-Spends

      -- One poll of an rpc server's connection does what a poll of any connection does, whatever the
      -- rpcs, their services and the peer are: with RpcSubmitter as the reactor, nothing is asked of
      -- it but that the pool of the rpcs shrinks when it gives one. The buffers are of one chunk, as
      -- those of PooledEncoder and of OwnedBuffer are.
      pub poll_hosting-Drives :
          (rounds fuel : ℕ) (left_to_read : T → ℕ) (c : Connection T D (RpcSubmitter C P) B O)
          → IsFinite stream left_to_read
          → IsHonest codec c.max_buffer_length
          → IsLive c
          → c.max_buffer_length + c.buffer_allocation_increment ≤ rounds
          → left_to_read c.stream < fuel
          → left c.stream < fuel
          → Drives stream buf codec submitter_reactor rounds fuel contents buf_law sent left
              writable duplex c
      poll_hosting-Drives rounds fuel left_to_read c finite honest live enough lt lt' =
          poll-Drives stream buf codec submitter_reactor rounds fuel contents buf_law sent left
            writable duplex submitter_reactor-IsThrifty left_to_read c finite honest live enough lt
            lt'
