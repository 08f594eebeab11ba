-- ===== src/Rpc/RpcStream/Protocol.antt =====
-- The events of one rpc, in order (protosocket-rpc/src/server/rpc_stream.rs).
use protosocket.Prelude.{
  Poll, ready, pending, ℕ, ◌<◌, ◌≡◌, ◌≢◌, inl, inr, refl, sym, subst, true, Bool-cases, List, [],
  ◌∷◌, length, get_elem?, Option, none, some, arith, get_elem?-set_self, get_elem?-set_ne,
  length-set,
}
use protosocket.Rpc.RpcStream.{
  Heap, register, wake, cell, register_waker, mark_aborted, RpcStreamKind, unary, streaming, done,
  RpcStream, RpcStreamEvent, item, complete, finished, cancelled, Service, poll_aborted, on_unary,
  on_streaming, poll_kind, poll_next,
}

-- What an rpc may still say: its one answer, items, or nothing.
pub data Phase : Type 0 where
  once many over : Phase

abbrev pub phase : {F S : Type 0} → RpcStreamKind F S → Phase
phase (unary f) = once
phase (streaming s) = many
phase done = over

-- The protocol of an rpc: from a phase, by an answer to a poll, to a phase.
pub data Says {T : Type 0} (id : ℕ) : Phase → Option (ℕ × RpcStreamEvent T) → Phase → Type 0 where
  completes : (t : T) → Says id once (some (id, complete t)) over
  yields : (t : T) → Says id many (some (id, item t)) many
  finishes : Says id many (some (id, finished)) over
  cancels_once : Says id once (some (id, cancelled)) over
  cancels_many : Says id many (some (id, cancelled)) over
  is_silent : Says id over none over

-- A sequence of answers that keeps to the protocol.
abbrev pub Speaks : {T : Type 0} → ℕ → Phase → List (Option (ℕ × RpcStreamEvent T)) → Type 0
Speaks id ph [] = Unit {0}
Speaks id ph (o ∷ os) = (ph' : Phase) × Says id ph o ph' × Speaks id ph' os

-- What happens to an rpc: the reactor polls it, or its handle aborts it.
pub data Action : Type 0 where
  polls aborts : Action

module _ {F S T : Type 0} (service : Service F S T) where
  -- The answers of all polls that are ready.
  unfoldable pub run : List Action → Heap → RpcStream F S → List (Option (ℕ × RpcStreamEvent T))
  run [] h r = []
  run (polls ∷ actions) h r =
      let (h', r', p) = poll_next service h r in
      let rest = run actions h' r' in elim p [ ready o ↦ o ∷ rest | pending ↦ rest ]
  run (aborts ∷ actions) h r = run actions (mark_aborted h r.shared) r

  -- One poll: an answer of the protocol, or none yet.
  abbrev Turn : ℕ → Phase → RpcStream F S × Poll (Option (ℕ × RpcStreamEvent T)) → Type 0
  Turn id ph (r', ready o) = (r'.id ≡ id) × Says id ph o (phase r'.kind)
  Turn id ph (r', pending) = (r'.id ≡ id) × (phase r'.kind ≡ ph)

  silent_Turn : (r : RpcStream F S) → r.kind ≡ done → Turn r.id over (r, ready none)
  silent_Turn r e = (refl, subst (λ k. Says {T = T} r.id over none (phase k)) (sym e) is_silent)

  poll_aborted-Turn :
      (r : RpcStream F S) (kind : RpcStreamKind F S)
      → r.kind ≡ kind
      → Turn r.id (phase kind) (poll_aborted service r kind)
  unfolding poll_aborted
  poll_aborted-Turn r (unary f) e = (refl, cancels_once)
  poll_aborted-Turn r (streaming f) e = (refl, cancels_many)
  poll_aborted-Turn r done e = silent_Turn r e

  on_unary-Turn : (r : RpcStream F S) (f : F) (p : Poll T) → Turn r.id once (on_unary service r f p)
  unfolding on_unary
  on_unary-Turn r f (ready t) = (refl, completes t)
  on_unary-Turn r f pending = (refl, refl)

  on_streaming-Turn :
      (r : RpcStream F S) (s : S) (p : Poll (Option T))
      → Turn r.id many (on_streaming service r s p)
  unfolding on_streaming
  on_streaming-Turn r s (ready (some t)) = (refl, yields t)
  on_streaming-Turn r s (ready none) = (refl, finishes)
  on_streaming-Turn r s pending = (refl, refl)

  poll_kind-Turn :
      (r : RpcStream F S) (kind : RpcStreamKind F S)
      → r.kind ≡ kind
      → Turn r.id (phase kind) (poll_kind service r kind)
  unfolding poll_kind
  poll_kind-Turn r (unary f) e = on_unary-Turn r _ _
  poll_kind-Turn r (streaming s) e = on_streaming-Turn r _ _
  poll_kind-Turn r done e = silent_Turn r e

  pub poll_next-Turn :
      (h : Heap) (r : RpcStream F S)
      → Turn r.id (phase r.kind) ((poll_next service h r).1, (poll_next service h r).2)
  unfolding poll_next
  poll_next-Turn h r = elim (Bool-cases ((cell (register_waker h r.shared) r.shared).aborted)) [
    | inl e ↦ rw e (poll_aborted-Turn r r.kind refl)
    | inr e ↦ rw e (poll_kind-Turn r r.kind refl)
  ]

  told :
      (actions : List Action) (id : ℕ) (ph : Phase) (r' : RpcStream F S)
      (p : Poll (Option (ℕ × RpcStreamEvent T))) (rest : List (Option (ℕ × RpcStreamEvent T)))
      → Turn id ph (r', p)
      → Speaks r'.id (phase r'.kind) rest
      → Speaks id ph (elim p [ ready o ↦ o ∷ rest | pending ↦ rest ])
  told actions id ph r' (ready o) rest (same, says) more =
      (phase r'.kind, says, subst (λ i. Speaks i (phase r'.kind) rest) same more)
  told actions id ph r' pending rest (same, stays) more =
      subst (λ q. Speaks id q rest) stays (subst (λ i. Speaks i (phase r'.kind) rest) same more)

  -- However an rpc is polled and aborted, its answers keep to the protocol: a unary rpc says one
  -- completion, a streaming one items and then the end, or either says that it was cancelled; all
  -- under the rpc's id, with at most one terminal event, and nothing but the end after it.
  pub run-Speaks :
      (actions : List Action) (h : Heap) (r : RpcStream F S)
      → Speaks r.id (phase r.kind) (run actions h r)
  unfolding run
  run-Speaks [] h r = tt
  run-Speaks (polls ∷ actions) h r =
      told actions r.id (phase r.kind) (poll_next service h r).1 (poll_next service h r).2 _
        (poll_next-Turn h r)
        (run-Speaks actions (poll_next service h r).0 (poll_next service h r).1)
  run-Speaks (aborts ∷ actions) h r = run-Speaks actions (mark_aborted h r.shared) r

  aborted_cell :
      (h : Heap) (a : ℕ)
      → a < length h
      → (cell (register_waker (mark_aborted h a) a) a).aborted ≡ true
  unfolding mark_aborted
  aborted_cell h a lt =
      let one =
        get_elem?-set_self h a (record { aborted = true; waker = wake ∷ (cell h a).waker }) lt in
      let two =
        get_elem?-set_self (mark_aborted h a) a
          (record (cell (mark_aborted h a) a) {
            waker = register ∷ (cell (mark_aborted h a) a).waker;
          })
          (omega (
            arith,
            lt,
            length-set h a (record { aborted = true; waker = wake ∷ (cell h a).waker }),
          )) in
      ground (arith, one, two)

  cancelled_answer :
      (r : RpcStream F S) (kind : RpcStreamKind F S)
      → phase kind ≢ over
      → (poll_aborted service r kind).1 ≡ ready (some (r.id, cancelled))
  unfolding poll_aborted
  cancelled_answer r (unary f) ne = refl
  cancelled_answer r (streaming s) ne = refl
  cancelled_answer r done ne = absurd (ne refl)

  -- An abort of an rpc that has not ended makes its next poll answer that it was cancelled, and leaves
  -- the cells of all other rpcs as they are.
  pub mark_aborted-poll_next :
      (h : Heap) (r : RpcStream F S)
      → r.shared < length h
      → phase r.kind ≢ over
      → ((poll_next service (mark_aborted h r.shared) r).2 ≡ ready (some (r.id, cancelled)))
        × ((a : ℕ) → r.shared ≢ a → get_elem? (mark_aborted h r.shared) a ≡ get_elem? h a)
  unfolding poll_next mark_aborted
  mark_aborted-poll_next h r lt ne = (
    rw (aborted_cell h r.shared lt) (cancelled_answer r r.kind ne),
    λ a other. get_elem?-set_ne h _ other,
  )
