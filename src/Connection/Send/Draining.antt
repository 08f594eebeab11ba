-- ===== src/Connection/Send/Draining.antt =====
-- Draining the queue into the send buffer (protosocket-connection/src/connection.rs,
-- poll_serialize_outbound_messages).
use protosocket.Prelude.{
  Poll, ready, pending, done, ℕ, zero, suc, ◌+◌, ◌≤◌, ◌≡◌, ◌⊎◌, inl, inr, refl, sym, ap, ◌∙◌, Bool,
  true, false, List, [], ◌∷◌, ◌++◌, length, Option, none, some, arith, append-nil, append_assoc,
}
use protosocket.Codec.{Codec}
use protosocket.SendBudget.{SendBudget, Spends}
use protosocket.Reactor.{MessageReactor, Stream, Buf}
use protosocket.Spillway.Receiver.{Receiver, poll_next}
use protosocket.Spillway.Receiver.Validity.{stored, IsValid, Reports, poll_next-Answers}
use protosocket.Connection.State.{Connection}
use protosocket.Connection.Send.{enqueue, drain_queue}
use protosocket.Connection.Send.Sides.{receiving}

module _ {S D R B I O L : Type 0} (stream : Stream S) (buf : Buf B) (codec : Codec D I O B)
    (reactor : MessageReactor R D B I O L) where
  -- A reactor uses the budget only as its interface lets it.
  abbrev pub IsThrifty : Type 0
  IsThrifty =
      (r : R) (b : SendBudget D B) → Spends codec.encoder b (reactor.poll_outbound_many r b).1

  -- Buffers went behind those that were queued, and the rest of the sending half is as before.
  pub record Queued (c : Connection S D R B L) (added : List B) (c' : Connection S D R B L)
      : Type 0 where
    pub behind : c'.send_buffer ≡ c.send_buffer ++ added
    pub same_stream : c'.stream ≡ c.stream
    pub max_queued_send_messages : c'.max_queued_send_messages ≡ c.max_queued_send_messages
    pub same_receiving : receiving c' ≡ receiving c
    pub valid : IsValid c'.outbound_messages

  unfoldable pub Drains : ℕ → Connection S D R B L → Type 0
  Drains rounds c =
      (closed : Bool) × (c' : Connection S D R B L) × (added : List B) × (drain_queue stream buf
          codec reactor rounds c
        ≡ done (closed, c'))
      × Queued c added c'
      × (length added ≤ rounds)
      × (length added + stored c'.outbound_messages ≡ stored c.outbound_messages)
      × (closed ≡ true → stored c'.outbound_messages ≡ 0)
      × ((stored c'.outbound_messages ≡ 0) ⊎ (length added ≡ rounds))

  abbrev with_queue : Connection S D R B L → Receiver L → Connection S D R B L
  with_queue c queue = record c { outbound_messages = queue }

  -- One message of the queue, behind the buffers.
  enqueue-Queued :
      (c : Connection S D R B L) (r : Receiver L) (m : L)
      → IsValid r
      → (buffer : B) × Queued c (buffer ∷ []) (enqueue stream buf codec reactor (with_queue c r) m)
        × ((enqueue stream buf codec reactor (with_queue c r) m).outbound_messages ≡ r)
  unfolding enqueue
  enqueue-Queued c r m h = (
    (codec.encode c.codec (reactor.on_outbound_message c.reactor m).1).1,
    record {
      behind = refl;
      same_stream = refl;
      max_queued_send_messages = refl;
      same_receiving = refl;
      valid = h;
    },
    refl,
  )

  pub no_messages :
      (c : Connection S D R B L) (r : Receiver L) → IsValid r → Queued c [] (with_queue c r)
  no_messages c r h = record {
    behind = sym (append-nil c.send_buffer);
    same_stream = refl;
    max_queued_send_messages = refl;
    same_receiving = refl;
    valid = h;
  }

  pub Queued_trans :
      {c c' c'' : Connection S D R B L} {xs ys : List B}
      → Queued c xs c'
      → Queued c' ys c''
      → Queued c (xs ++ ys) c''
  Queued_trans {c = c} {xs = xs} {ys = ys} q q' = record {
    behind = q'.behind ∙ ap (λ l. l ++ ys) q.behind ∙ append_assoc c.send_buffer xs ys;
    same_stream = q'.same_stream ∙ q.same_stream;
    max_queued_send_messages = q'.max_queued_send_messages ∙ q.max_queued_send_messages;
    same_receiving = q'.same_receiving ∙ q.same_receiving;
    valid = q'.valid;
  }

  drain_queue_message :
      (rounds : ℕ) (c : Connection S D R B L) (m : L) (r : Receiver L)
      → poll_next c.outbound_messages ≡ some (ready (some m), r)
      → drain_queue stream buf codec reactor (suc rounds) c
        ≡ drain_queue stream buf codec reactor rounds
            (enqueue stream buf codec reactor (with_queue c r) m)
  unfolding drain_queue
  drain_queue_message rounds c m r e = ground (arith, e)

  drained_by :
      (rounds : ℕ) (c : Connection S D R B L)
      → ((c' : Connection S D R B L) → IsValid c'.outbound_messages → Drains rounds c')
      → (p : Poll (Option L)) (r : Receiver L) → poll_next c.outbound_messages ≡ some (p, r)
      → IsValid r
      → Reports c.outbound_messages p r
      → Drains (suc rounds) c
  unfolding drain_queue Drains
  drained_by rounds c ih (ready (some m)) r e valid one =
      let (buffer, q, same) = enqueue-Queued c r m valid in
      let (closed, c', added, run, q', few, count, all, full) =
        ih (enqueue stream buf codec reactor (with_queue c r) m) q.valid in
      (
        closed,
        c',
        buffer ∷ added,
        drain_queue_message rounds c m r e ∙ run,
        Queued_trans q q',
        omega (arith, few),
        omega (arith, count, one, ap stored same),
        all,
        elim full [ inl e ↦ inl e | inr e ↦ inr (ap suc e) ],
      )
  drained_by rounds c ih (ready none) r e valid (before, after, gone) = (
    true,
    with_queue c r,
    [],
    ground (arith, e),
    no_messages c r valid,
    omega arith,
    omega (arith, before, after),
    λ _. after,
    inl after,
  )
  drained_by rounds c ih pending r e valid (before, after, _, _) = (
    false,
    with_queue c r,
    [],
    ground (arith, e),
    no_messages c r valid,
    omega arith,
    omega (arith, before, after),
    λ f. cc,
    inl after,
  )

  pub drain_queue-Drains :
      (rounds : ℕ) (c : Connection S D R B L) → IsValid c.outbound_messages → Drains rounds c
  unfolding drain_queue Drains
  drain_queue-Drains zero c h = (
    false,
    c,
    [],
    refl,
    record {
      behind = sym (append-nil c.send_buffer);
      same_stream = refl;
      max_queued_send_messages = refl;
      same_receiving = refl;
      valid = h;
    },
    omega arith,
    omega arith,
    λ e. cc,
    inr refl,
  )
  drain_queue-Drains (suc rounds) c h =
      let (p, r, e, valid, says) = poll_next-Answers c.outbound_messages h in
      drained_by rounds c (drain_queue-Drains rounds) p r e valid says
