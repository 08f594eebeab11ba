-- ===== src/Rpc/RpcSubmitter/Spending.antt =====
-- The server's reactor keeps to its budget, and its turn ends
-- (protosocket-rpc/src/server/rpc_submitter.rs, poll_outbound_many).
use protosocket.Prelude.{
  Poll, ready, pending, Run, done, ℕ, zero, suc, ◌+◌, ◌≤◌, ◌<◌, ◌≡◌, inl, inr, refl, sym, subst,
  ◌∙◌, Bool, true, false, Bool-cases, Option-cases, List, [], ◌∷◌, Option, none, some, arith,
}
use protosocket.Codec.{Encoder}
use protosocket.SendBudget
use protosocket.SendBudget.{SendBudget, SendPermit, Spends, kept, sent, send-remaining}
use protosocket.Rpc.Message.{Message}
use protosocket.Rpc.RpcStream
use protosocket.Rpc.RpcStream.{
  Heap, RpcStream, RpcStreamEvent, item, complete, finished, cancelled, is_terminal, Service,
}
use protosocket.Rpc.ServerTraits.{ConnectionService}
use protosocket.Rpc.RpcSubmitter.{
  Pool, RpcSubmitter, Turn, message_for_event, send_rejections, send_event, drain_rpc, on_answer,
}

module _ {C P F S I O D B : Type 0} (service : Service F S O) (pool : Pool P F S O)
    (server : ConnectionService C F S I) (request : Message I) (response : Message O)
    (encoder : Encoder D O B) where
  abbrev Turn' : Type 0
  Turn' = Turn service pool server request response encoder

  message_for_event-rpcs :
      (r : RpcSubmitter C P) (id : ℕ) (event : RpcStreamEvent O)
      → (message_for_event service pool server request response encoder r id event).0.rpcs ≡ r.rpcs
  unfolding message_for_event
  message_for_event-rpcs r id (item t) = refl
  message_for_event-rpcs r id (complete t) = refl
  message_for_event-rpcs r id finished = refl
  message_for_event-rpcs r id cancelled = refl

  -- From a budget: what was sent since, what remains, and the pool as it was.
  pub record Spent (b0 : SendBudget D B) (r : RpcSubmitter C P) (b : SendBudget D B)
      (t : RpcSubmitter C P × SendBudget D B × ℕ) : Type 0 where
    pub spends : Spends encoder b0 t.1
    pub less : t.1.remaining ≤ b.remaining
    pub same_rpcs : t.0.rpcs ≡ r.rpcs

  module _ (id : ℕ) (ids : List ℕ) (r : RpcSubmitter C P) (b : SendBudget D B) (n : ℕ) where
    rejections_full :
        SendBudget.reserve b ≡ none
        → send_rejections service pool server request response encoder (id ∷ ids) (r, b, n)
          ≡ (record r { rejections = id ∷ ids }, b, n)
    unfolding send_rejections
    rejections_full e = ground (arith, e)

    rejections_next :
        (permit : SendPermit D B)
        → SendBudget.reserve b ≡ some permit
        → send_rejections service pool server request response encoder (id ∷ ids) (r, b, n)
          ≡ send_rejections service pool server request response encoder ids
              (r, SendBudget.send encoder permit (response.cancelled id), n + 1)
    unfolding send_rejections
    rejections_next permit e = ground (arith, e)

  module _ (rounds : ℕ) (r : RpcSubmitter C P) (b : SendBudget D B) (n : ℕ)
      (rpc : RpcStream F S) where
    drain_full :
        SendBudget.reserve b ≡ none
        → drain_rpc service pool server request response encoder (suc rounds) (r, b, n) rpc
          ≡ done (false, rpc, (r, b, n))
    unfolding drain_rpc
    drain_full e = ground (arith, e)

    drain_next :
        (permit : SendPermit D B)
        → SendBudget.reserve b ≡ some permit
        → drain_rpc service pool server request response encoder (suc rounds) (r, b, n) rpc
          ≡ on_answer service pool server request response encoder
              (record r { cells = (RpcStream.poll_next service r.cells rpc).0 }, b, n)
              permit
              (RpcStream.poll_next service r.cells rpc).1
              (λ t.
                drain_rpc service pool server request response encoder rounds t
                  (RpcStream.poll_next service r.cells rpc).1)
              (RpcStream.poll_next service r.cells rpc).2
    unfolding drain_rpc
    drain_next permit e = ground (arith, e)

  module _ (b0 : SendBudget D B) where
    sent-Spends :
        (b : SendBudget D B) (permit : SendPermit D B) (m : O)
        → Spends encoder b0 b
        → SendBudget.reserve b ≡ some permit
        → Spends encoder b0 (SendBudget.send encoder permit m)
          × (suc (SendBudget.send encoder permit m).remaining ≡ b.remaining)
    sent-Spends b permit m s e =
        let (_, _, less) = send-remaining encoder b permit m e in (sent s permit e m _ refl, less)

    pub send_event-Spent :
        (r : RpcSubmitter C P) (b : SendBudget D B) (n : ℕ) (permit : SendPermit D B)
        (event : ℕ × RpcStreamEvent O)
        → Spends encoder b0 b
        → SendBudget.reserve b ≡ some permit
        → Spent b0 r b
            (send_event service pool server request response encoder (r, b, n) permit event)
          × (suc
                (send_event service pool server request response encoder
                  (r, b, n)
                  permit
                  event).1.remaining
              ≡ b.remaining)
    unfolding send_event
    send_event-Spent r b n permit (id, event) s e =
        let (s', less) =
          sent-Spends b permit
            (message_for_event service pool server request response encoder r id event).1 s e in
        (
          record {
            spends = s';
            less = omega (arith, less);
            same_rpcs = message_for_event-rpcs r id event;
          },
          less,
        )

    pub send_rejections-Spent :
        (ids : List ℕ) (r : RpcSubmitter C P) (b : SendBudget D B) (n : ℕ)
        → Spends encoder b0 b
        → Spent b0 r b (send_rejections service pool server request response encoder ids (r, b, n))
    unfolding send_rejections
    send_rejections-Spent [] r b n s = record { spends = s; less = omega arith; same_rpcs = refl }
    send_rejections-Spent (id ∷ ids) r b n s = elim (Option-cases (SendBudget.reserve b)) [
      | inl e ↦
          subst (Spent b0 r b) (sym (rejections_full id ids r b n e))
            (record { spends = s; less = omega arith; same_rpcs = refl })
      | inr (permit, e) ↦
          let (s', less) = sent-Spends b permit (response.cancelled id) s e in
          let ih =
            send_rejections-Spent ids r (SendBudget.send encoder permit (response.cancelled id))
              (n + 1) s' in
          subst (Spent b0 r b) (sym (rejections_next id ids r b n permit e)) (record {
            spends = ih.spends;
            less = omega (arith, ih.less, less);
            same_rpcs = ih.same_rpcs;
          })
    ]

    unfoldable pub Drains :
        RpcSubmitter C P
        → SendBudget D B
        → Run (Bool × RpcStream F S × (RpcSubmitter C P × SendBudget D B × ℕ))
        → Type 0
    Drains r b o =
        (retired : Bool) × (rpc : RpcStream F S) × (t : RpcSubmitter C P × SendBudget D B × ℕ) × (o
          ≡ done (retired, rpc, t))
        × Spent b0 r b t

    Spent-self :
        (r : RpcSubmitter C P) (b : SendBudget D B) (n : ℕ) (cells : Heap)
        → Spends encoder b0 b
        → Spent b0 r b (record r { cells = cells }, b, n)
    Spent-self r b n cells s = record { spends = s; less = omega arith; same_rpcs = refl }

    on_answer-Drains :
        (r : RpcSubmitter C P) (b : SendBudget D B) (n : ℕ) (permit : SendPermit D B)
        (rpc : RpcStream F S)
        (again : RpcSubmitter C P × SendBudget D B × ℕ
          → Run (Bool × RpcStream F S × (RpcSubmitter C P × SendBudget D B × ℕ)))
        (p : Poll (Option (ℕ × RpcStreamEvent O)))
        → Spends encoder b0 b
        → SendBudget.reserve b ≡ some permit
        → ((r' : RpcSubmitter C P) (b' : SendBudget D B) (n' : ℕ)
            → suc b'.remaining ≡ b.remaining
            → Spends encoder b0 b'
            → Drains r' b' (again (r', b', n')))
        → Drains r b
            (on_answer service pool server request response encoder (r, b, n) permit rpc again p)
    unfolding on_answer Drains
    on_answer-Drains r b n permit rpc again pending s e ih =
        (false, rpc, (r, b, n), refl, Spent-self r b n r.cells s)
    on_answer-Drains r b n permit rpc again (ready none) s e ih =
        (true, rpc, (r, b, n), refl, Spent-self r b n r.cells s)
    on_answer-Drains r b n permit rpc again (ready (some event)) s e ih =
        let t' = send_event service pool server request response encoder (r, b, n) permit event in
        let (out, less) = send_event-Spent r b n permit event s e in
        elim (Bool-cases (is_terminal (event.1))) [
          | inl last ↦ (true, rpc, t', rw last refl, out)
          | inr more ↦
              let (retired, rpc', t'', run, rest) = ih (t'.0) (t'.1) (t'.2) less out.spends in
              (
                retired,
                rpc',
                t'',
                rw more run,
                record {
                  spends = rest.spends;
                  less = omega (arith, rest.less, less);
                  same_rpcs = rest.same_rpcs ∙ out.same_rpcs;
                },
              )
        ]

    full_Drains :
        (r : RpcSubmitter C P) (b : SendBudget D B) (n : ℕ) (rpc : RpcStream F S)
        → Spends encoder b0 b
        → Drains r b (done (false, rpc, (r, b, n)))
    unfolding Drains
    full_Drains r b n rpc s = (false, rpc, (r, b, n), refl, Spent-self r b n r.cells s)

    moved :
        (r : RpcSubmitter C P) (b : SendBudget D B) (cells : Heap)
        (o : Run (Bool × RpcStream F S × (RpcSubmitter C P × SendBudget D B × ℕ)))
        → Drains (record r { cells = cells }) b o
        → Drains r b o
    unfolding Drains
    moved r b cells o (retired, rpc, t, e, s) =
        (retired, rpc, t, e, record { spends = s.spends; less = s.less; same_rpcs = s.same_rpcs })

    pub drain_rpc-Drains :
        (rounds : ℕ) (r : RpcSubmitter C P) (b : SendBudget D B) (n : ℕ) (rpc : RpcStream F S)
        → b.remaining < rounds
        → Spends encoder b0 b
        → Drains r b (drain_rpc service pool server request response encoder rounds (r, b, n) rpc)
    drain_rpc-Drains zero r b n rpc lt s = absurd (omega arith)
    drain_rpc-Drains (suc rounds) r b n rpc lt s = elim (Option-cases (SendBudget.reserve b)) [
      | inl e ↦ subst (Drains r b) (sym (drain_full rounds r b n rpc e)) (full_Drains r b n rpc s)
      | inr (permit, e) ↦ subst (Drains r b) (sym (drain_next rounds r b n rpc permit e)) (
          moved r b _ _ (
            on_answer-Drains (record r { cells = (RpcStream.poll_next service r.cells rpc).0 }) b n
              permit (RpcStream.poll_next service r.cells rpc).1 _
              (RpcStream.poll_next service r.cells rpc).2 s e
              (λ r' b' n' less s'.
                drain_rpc-Drains rounds r' b' n' _ (omega (arith, less, lt)) s')))
    ]
