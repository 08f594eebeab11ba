-- ===== src/Rpc/Completions/Outcomes.antt =====
-- How an rpc ends for its caller (protosocket-rpc/src/client/reactor/completion_streaming.rs and
-- completion_registry.rs).
use protosocket.Prelude.{
  Poll, ready, pending, ℕ, zero, suc, ◌+◌, ◌^◌, ◌<◌, ◌≡◌, inl, inr, refl, sym, subst, Bool, true,
  false, if◌then◌else◌, Bool-cases, List, [], ◌∷◌, length, Option, none, some, arith,
}
use protosocket.Spillway.Shared.{Shared}
use protosocket.Spillway.Sender
use protosocket.Spillway.Receiver.{Receiver, poll_next}
use protosocket.Spillway.Receiver.Validity.{IsValid, stored, poll_next-Answers}
use protosocket.Spillway.Sending.{Delivers, HasRoom, send-Sends}
use protosocket.Rpc.CompletionReactor.{RpcNotification, cancel_rpc}
use protosocket.Rpc.Completions.{
  finished, Result, ok, err, CompletionGuard, set_closed, drop_guard, StreamingCompletion,
  on_received, poll_streaming,
}

module _ {I : Type 0} where
  -- Responses, then the notice that the rpc has finished, then nothing; the flag says whether that
  -- notice was given.
  abbrev pub Tells : Bool → List (Option (Result I)) → Bool → Type 0
  Tells told [] last = told ≡ last
  Tells false (some (ok m) ∷ os) last = Tells false os last
  Tells false (some (err finished) ∷ os) last = Tells true os last
  Tells true (none ∷ os) last = Tells true os last
  Tells _ _ last = ⊥

  -- The answers of `n` polls that are ready, and the completion after them.
  unfoldable pub polled :
      ℕ → StreamingCompletion I → Option (List (Option (Result I)) × StreamingCompletion I)
  polled zero c = some ([], c)
  polled (suc n) c = elim (poll_streaming c) [
    | none ↦ none
    | some (c', p) ↦ elim (polled n c') [
      | none ↦ none
      | some (os, last) ↦ some (elim p [ ready o ↦ o ∷ os | pending ↦ os ], last)
    ]
  ]

  -- The guard is closed when the stream is.
  pub record IsGuarded (c : StreamingCompletion I) : Type 0 where
    pub valid : IsValid c.completion
    pub guarded : c.completion_guard.closed ≡ c.closed

  abbrev pub Ends : ℕ → StreamingCompletion I → Type 0
  Ends n c =
      (os : List (Option (Result I))) × (last : StreamingCompletion I) × (polled n c
        ≡ some (os, last))
      × Tells c.closed os last.closed
      × IsGuarded last
      × (last.completion_guard.message_id ≡ c.completion_guard.message_id)

  polled_next :
      (n : ℕ) (c c' last : StreamingCompletion I) (p : Poll (Option (Result I)))
      (os : List (Option (Result I)))
      → poll_streaming c ≡ some (c', p)
      → polled n c' ≡ some (os, last)
      → polled (suc n) c ≡ some (elim p [ ready o ↦ o ∷ os | pending ↦ os ], last)
  unfolding polled
  polled_next n c c' last p os e f = ground (arith, e, f)

  closed_poll :
      (c : StreamingCompletion I) → c.closed ≡ true → poll_streaming c ≡ some (c, ready none)
  unfolding poll_streaming
  closed_poll c e = rw e refl

  open_poll :
      (c : StreamingCompletion I) (p : Poll (Option I)) (r : Receiver I)
      → c.closed ≡ false
      → poll_next c.completion ≡ some (p, r)
      → poll_streaming c ≡ some (on_received (record c { completion = r }) p)
  unfolding poll_streaming
  open_poll c p r e f = ground (arith, e, f)

  received_Ends :
      (n : ℕ) (c : StreamingCompletion I) (p : Poll (Option I)) (r : Receiver I)
      → ((c' : StreamingCompletion I) → IsGuarded c' → Ends n c')
      → IsGuarded c
      → c.closed ≡ false
      → poll_next c.completion ≡ some (p, r)
      → IsValid r
      → Ends (suc n) c
  unfolding on_received set_closed
  received_Ends n c (ready (some m)) r ih h e f valid =
      let c' = record c { completion = r } in
      let (os, last, run, tells, g, id) = ih c' (record { valid = valid; guarded = h.guarded }) in
      (
        some (ok m) ∷ os,
        last,
        polled_next n c c' last (ready (some (ok m))) os (open_poll c _ r e f) run,
        subst (λ b. Tells b (some (ok m) ∷ os) last.closed) (sym e)
            (subst (λ b. Tells b os last.closed) e tells),
        g,
        id,
      )
  received_Ends n c (ready none) r ih h e f valid =
      let c' = record c {
        completion = r;
        closed = true;
        completion_guard = record (c.completion_guard) { closed = true };
      } in
      let (os, last, run, tells, g, id) = ih c' (record { valid = valid; guarded = refl }) in
      (
        some (err finished) ∷ os,
        last,
        polled_next n c c' last (ready (some (err finished))) os (open_poll c _ r e f) run,
        subst (λ b. Tells b (some (err finished) ∷ os) last.closed) (sym e) tells,
        g,
        id,
      )
  received_Ends n c pending r ih h e f valid =
      let c' = record c { completion = r } in
      let (os, last, run, tells, g, id) = ih c' (record { valid = valid; guarded = h.guarded }) in
      (os, last, polled_next n c c' last pending os (open_poll c _ r e f) run, tells, g, id)

  -- However often a streaming completion is polled, no poll panics, and the answers are responses, then
  -- once the notice that the rpc has finished, then nothing. The guard is closed exactly when that
  -- notice was given, and still stands for the same rpc.
  pub polled-Ends : (n : ℕ) (c : StreamingCompletion I) → IsGuarded c → Ends n c
  unfolding polled
  polled-Ends zero c h = ([], c, refl, refl, h, refl)
  polled-Ends (suc n) c h = elim (Bool-cases c.closed) [
    | inl e ↦
        let (os, last, run, tells, g, id) = polled-Ends n c h in
        (
          none ∷ os,
          last,
          polled_next n c c last (ready none) os (closed_poll c e) run,
          subst (λ b. Tells b (none ∷ os) last.closed) (sym e)
              (subst (λ b. Tells b os last.closed) e tells),
          g,
          id,
        )
    | inr e ↦
        let (p, r, f, valid, _) = poll_next-Answers c.completion h.valid in
        received_Ends n c p r (polled-Ends n) h e f valid
  ]

module _ {O : Type 0} where
  -- A guard that is dropped before its rpc has ended puts one cancellation under its id behind what its
  -- sender's chute holds, in a channel that is open and has room for it; one that is closed sends
  -- nothing. Either way its sender is dropped after that.
  pub drop_guard-Delivers :
      (r : Receiver (RpcNotification O)) (g : CompletionGuard)
      → IsValid r
      → r.shared.dead ≡ false
      → g.raw_submission_queue.chute < length r.shared.chutes
      → stored r + 1 < 2 ^ 64
      → HasRoom r 1
      → (s' : Shared (RpcNotification O)) × (drop_guard r.shared g
          ≡ some (Sender.drop_last g.raw_submission_queue s'))
        × (if g.closed
            then s' ≡ r.shared
            else Delivers r g.raw_submission_queue.chute (cancel_rpc g.message_id ∷ []) s')
  unfolding drop_guard Sender.send
  drop_guard-Delivers r g h alive lt small room = elim (Bool-cases g.closed) [
    | inl e ↦ (r.shared, rw e refl, rw e refl)
    | inr e ↦
        elim (send-Sends r g.raw_submission_queue.chute (cancel_rpc g.message_id) alive lt small
          h) [
            | inl (_, s', sent, delivers) ↦ (s', ground (arith, e, sent), rw e delivers)
            | inr (bounded, over, _) ↦ elim room [
              | inl unbounded ↦ absurd (bounded unbounded)
              | inr fits ↦ absurd (omega (arith, over, fits))
            ]
          ]
  ]
