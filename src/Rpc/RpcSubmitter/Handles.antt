-- ===== src/Rpc/RpcSubmitter/Handles.antt =====
-- Abort handles stay usable, and a cancellation from the client reaches its rpc
-- (protosocket-rpc/src/server/rpc_submitter.rs, on_inbound_message).
use protosocket.Prelude.{
  ready, ℕ, ◌<◌, ◌≡◌, ◌≢◌, inl, inr, sym, ap, ◌∙◌, true, false, ◌==◌, ==_iff, Bool-cases, [], ◌∷◌,
  length, Option, none, some, arith, length-append, length-set,
}
use protosocket.Prelude.Assoc.{
  lookup, remove, insert, lookup-remove_self, lookup-remove_ne, lookup-insert_self,
  lookup-insert_ne,
}
use protosocket.Codec.{Encoder}
use protosocket.Rpc.Message.{Message, ProtosocketControlCode, normal, cancel, end}
use protosocket.Rpc.RpcStream
use protosocket.Rpc.RpcStream.{
  Heap, Shared, cell, wake, mark_aborted, RpcStream, RpcStreamEvent, cancelled, Service, new,
  new_unary, new_streaming,
}
use protosocket.Rpc.RpcStream.Protocol.{phase, over, mark_aborted-poll_next}
use protosocket.Rpc.ServerTraits.{
  RpcKind, unary, streaming, cancelled as rejected, ConnectionService,
}
use protosocket.Rpc.RpcSubmitter.{
  Pool, RpcSubmitter, register, take_abort, start, on_new_rpc, abort, on_code, on_inbound_message,
}

module _ {C P : Type 0} where
  -- Every handle that is tracked has its cell.
  pub record IsTracked (r : RpcSubmitter C P) : Type 0 where
    pub in_heap : (id a : ℕ) → lookup r.aborts id ≡ some a → a < length r.cells

  removed-IsTracked :
      (r : RpcSubmitter C P) (id : ℕ)
      → IsTracked r
      → IsTracked (record r { aborts = remove r.aborts id })
  removed-IsTracked r id h = record { in_heap = kept }
    where
      kept : (id' a : ℕ) → lookup (remove r.aborts id) id' ≡ some a → a < length r.cells
      kept id' a e = elim (Bool-cases (id == id')) [
        | inl same ↦
            let gone = ap (lookup (remove r.aborts id)) ((==_iff id id').0 same) in
            absurd (ground (arith, sym gone ∙ lookup-remove_self r.aborts id, e))
        | inr other ↦
            h.in_heap id' a
              (sym (lookup-remove_ne r.aborts id id' (λ f. ground (arith, other, f))) ∙ e)
      ]

  -- A handle for the cell behind the others.
  added_handle :
      (r : RpcSubmitter C P) (id : ℕ) (cells : Heap)
      → IsTracked r
      → length r.cells < length cells
      → (id' a : ℕ) → lookup (insert r.aborts id (length r.cells)) id' ≡ some a
      → a < length cells
  added_handle r id cells h more id' a e = elim (Bool-cases (id == id')) [
    | inl same ↦
        let bound =
          sym (ap (lookup (insert r.aborts id (length r.cells))) ((==_iff id id').0 same))
          ∙ lookup-insert_self r.aborts id (length r.cells) in
        let equal : length r.cells ≡ a = ground (arith, bound, e) in omega (arith, equal, more)
    | inr other ↦
        let inside = h.in_heap id' a (
          sym (lookup-insert_ne r.aborts id id' (length r.cells) (λ f. ground (arith, other, f)))
          ∙ e) in
        omega (arith, inside, more)
  ]

abbrev fresh_cell : Shared
fresh_cell = record { aborted = false; waker = [] }

module _ {C P F S I O D B : Type 0} (service : Service F S O) (pool : Pool P F S O)
    (server : ConnectionService C F S I) (request : Message I) (response : Message O)
    (encoder : Encoder D O B) where
  on_new_rpc-IsTracked :
      (r : RpcSubmitter C P) (id : ℕ) (kind : RpcKind F S)
      → IsTracked r
      → IsTracked (on_new_rpc service pool server request response encoder r id kind)
  unfolding on_new_rpc start register new_unary new_streaming new
  on_new_rpc-IsTracked r id (unary f) h = record {
    in_heap = added_handle r id _ h (omega (arith, length-append r.cells (fresh_cell ∷ [])));
  }
  on_new_rpc-IsTracked r id (streaming s) h = record {
    in_heap = added_handle r id _ h (omega (arith, length-append r.cells (fresh_cell ∷ [])));
  }
  on_new_rpc-IsTracked r id rejected h = record { in_heap = h.in_heap }

  on_cancel :
      (r : RpcSubmitter C P) (m : I) (a : ℕ)
      → request.control_code m ≡ cancel
      → lookup r.aborts (request.message_id m) ≡ some a
      → (on_inbound_message service pool server request response encoder r m).0 ≡ record r {
        aborts = remove r.aborts (request.message_id m);
        cells = mark_aborted r.cells a;
      }
  unfolding on_inbound_message on_code take_abort abort
  on_cancel r m a code e = ground (arith, code, e)

  abort-IsTracked :
      (handle : Option ℕ) (r : RpcSubmitter C P)
      → IsTracked r
      → IsTracked (abort service pool server request response encoder (handle, r))
  unfolding abort mark_aborted
  abort-IsTracked none r h = h
  abort-IsTracked (some a) r h = record {
    in_heap = λ id a' e. omega (
      arith,
      h.in_heap id a' e,
      length-set r.cells a (record { aborted = true; waker = wake ∷ (cell r.cells a).waker }),
    );
  }

  on_code-IsTracked :
      (r : RpcSubmitter C P) (m : I) (code : ProtosocketControlCode)
      → IsTracked r
      → IsTracked (on_code service pool server request response encoder r m code)
  unfolding on_code take_abort
  on_code-IsTracked r m normal h =
      on_new_rpc-IsTracked
        (record r { connection_server = (server.new_rpc r.connection_server m).0 })
        (request.message_id m) (server.new_rpc r.connection_server m).1
        (record { in_heap = h.in_heap })
  on_code-IsTracked r m cancel h =
      abort-IsTracked _ _ (removed-IsTracked r (request.message_id m) h)
  on_code-IsTracked r m end h = h

  -- Whatever message comes in, every tracked handle still has its cell.
  pub on_inbound_message-IsTracked :
      (r : RpcSubmitter C P) (m : I)
      → IsTracked r
      → IsTracked (on_inbound_message service pool server request response encoder r m).0
  unfolding on_inbound_message
  on_inbound_message-IsTracked r m h = on_code-IsTracked r m (request.control_code m) h

  -- A client's cancellation of a tracked rpc that has not ended takes its handle, and the next poll of
  -- that rpc answers that it was cancelled; the handles of all other rpcs stay.
  pub on_inbound_message-cancelled :
      (r : RpcSubmitter C P) (m : I) (rpc : RpcStream F S)
      → IsTracked r
      → request.control_code m ≡ cancel
      → lookup r.aborts (request.message_id m) ≡ some rpc.shared
      → phase rpc.kind ≢ over
      → let r' = (on_inbound_message service pool server request response encoder r m).0 in
        ((RpcStream.poll_next service r'.cells rpc).2 ≡ ready (some (rpc.id, cancelled)))
        × (lookup r'.aborts (request.message_id m) ≡ none)
        × ((id : ℕ) → request.message_id m ≢ id → lookup r'.aborts id ≡ lookup r.aborts id)
  on_inbound_message-cancelled r m rpc h code tracked alive =
      let e = on_cancel r m rpc.shared code tracked in
      (
        ap (λ x. (RpcStream.poll_next service x.cells rpc).2) e
            ∙ (mark_aborted-poll_next service r.cells rpc (h.in_heap _ _ tracked) alive).0,
        ap (λ x. lookup x.aborts (request.message_id m)) e
            ∙ lookup-remove_self r.aborts (request.message_id m),
        λ id other.
            ap (λ x. lookup x.aborts id) e
            ∙ lookup-remove_ne r.aborts (request.message_id m) id other,
      )
