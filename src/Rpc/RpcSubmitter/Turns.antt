-- ===== src/Rpc/RpcSubmitter/Turns.antt =====
-- A turn of the server's reactor ends within its budget
-- (protosocket-rpc/src/server/rpc_submitter.rs, poll_outbound_many).
use protosocket.Prelude.{
  Poll, ready, pending, Run, done, ◌>>=◌, ℕ, zero, suc, ◌+◌, ◌≤◌, ◌<◌, ◌≡◌, inl, inr, refl, sym, ap,
  subst, Bool, true, false, ltb, Bool-cases, Option-cases, Option, none, some, arith,
}
use protosocket.Codec.{Encoder}
use protosocket.SendBudget
use protosocket.SendBudget.{SendBudget, SendPermit, Spends, kept, sent, send-remaining}
use protosocket.Rpc.Message.{Message}
use protosocket.Rpc.RpcStream.{Heap, RpcStream, RpcStreamEvent, is_terminal, Service}
use protosocket.Rpc.ServerTraits.{ConnectionService}
use protosocket.Rpc.RpcSubmitter.{
  Pool, RpcSubmitter, send_rejections, send_event, drain_rpc, keep_rpc, serve, on_given, poll_rpcs,
  poll_outbound_many,
}
use protosocket.Rpc.RpcSubmitter.Spending.{
  Drains, send_event-Spent, drain_rpc-Drains, send_rejections-Spent,
}

-- The pool holds `size` rpcs: one more for each that is pushed, and one fewer for each that it gives.
pub record IsPool {P F S T : Type 0} (pool : Pool P F S T) (size : P → ℕ) : Type 0 where
  pub push_size : (p : P) (r : RpcStream F S) → size (pool.push p r) ≡ suc (size p)
  pub given_size :
      (h h' : Heap) (p p' : P) (given : Option (ℕ × RpcStreamEvent T) × RpcStream F S)
      → pool.poll_next h p ≡ (h', p', ready (some given))
      → suc (size p') ≡ size p

module _ {C P F S I O D B : Type 0} (service : Service F S O) (pool : Pool P F S O)
    (server : ConnectionService C F S I) (request : Message I) (response : Message O)
    (encoder : Encoder D O B) (size : P → ℕ) (law : IsPool pool size) (b0 : SendBudget D B) where
  -- A bound on the rounds that are left.
  abbrev measure : RpcSubmitter C P × SendBudget D B × ℕ → ℕ
  measure (r, b, n) = b.remaining + b.remaining + size r.rpcs

  -- The turn ends with what it sent, and the measure is smaller.
  Serves : ℕ → Run (RpcSubmitter C P × SendBudget D B × ℕ) → Type 0
  Serves bound o =
      (t : RpcSubmitter C P × SendBudget D B × ℕ) × (o ≡ done t)
      × Spends encoder b0 t.1
      × (measure t ≤ bound)

  keep_rpc-measure :
      (retired : Bool) (rpc : RpcStream F S) (r : RpcSubmitter C P) (b : SendBudget D B) (n : ℕ)
      → measure (keep_rpc service pool server request response encoder (retired, rpc, (r, b, n)))
        ≤ suc (measure (r, b, n))
  keep_rpc-measure true rpc r b n = omega arith
  keep_rpc-measure false rpc r b n = omega (arith, law.push_size r.rpcs rpc)

  serve_last :
      (t : RpcSubmitter C P × SendBudget D B × ℕ) (permit : SendPermit D B)
      (event : ℕ × RpcStreamEvent O) (rpc : RpcStream F S)
      → is_terminal (event.1) ≡ true
      → serve service pool server request response encoder t permit event rpc
        ≡ done (send_event service pool server request response encoder t permit event)
  unfolding serve
  serve_last t permit event rpc e = rw e refl

  serve_more :
      (t : RpcSubmitter C P × SendBudget D B × ℕ) (permit : SendPermit D B)
      (event : ℕ × RpcStreamEvent O) (rpc : RpcStream F S)
      (o : Bool × RpcStream F S × (RpcSubmitter C P × SendBudget D B × ℕ))
      → is_terminal (event.1) ≡ false
      → drain_rpc service pool server request response encoder
          (suc (send_event service pool server request response encoder t permit event).1.remaining)
          (send_event service pool server request response encoder t permit event)
          rpc
        ≡ done o
      → serve service pool server request response encoder t permit event rpc
        ≡ done (keep_rpc service pool server request response encoder o)
  unfolding serve
  serve_more t permit event rpc o e run = rw e (rw run refl)

  serve-Serves :
      (r : RpcSubmitter C P) (b : SendBudget D B) (n : ℕ) (permit : SendPermit D B)
      (event : ℕ × RpcStreamEvent O) (rpc : RpcStream F S)
      → Spends encoder b0 b
      → SendBudget.reserve b ≡ some permit
      → Serves
          (measure (r, b, n))
          (serve service pool server request response encoder (r, b, n) permit event rpc)
  unfolding Serves Drains
  serve-Serves r b n permit event rpc s e =
      let t = send_event service pool server request response encoder (r, b, n) permit event in
      let (out, less) =
        send_event-Spent service pool server request response encoder b0 r b n permit event s e in
      elim (Bool-cases (is_terminal (event.1))) [
        | inl last ↦ (
          t,
          serve_last (r, b, n) permit event rpc last,
          out.spends,
          omega (arith, less, ap size out.same_rpcs),
        )
        | inr more ↦
            let (retired, rpc', t', run, rest) =
              drain_rpc-Drains service pool server request response encoder b0 (suc (t.1.remaining))
                (t.0) (t.1) (t.2) rpc (omega arith) out.spends in
            (
              keep_rpc service pool server request response encoder (retired, rpc', t'),
              serve_more (r, b, n) permit event rpc (retired, rpc', t') more run,
              rest.spends,
              omega (
                arith,
                keep_rpc-measure retired rpc' (t'.0) (t'.1) (t'.2),
                rest.less,
                less,
                ap size rest.same_rpcs,
                ap size out.same_rpcs,
              ),
            )
      ]

  poll_full :
      (rounds : ℕ) (r : RpcSubmitter C P) (b : SendBudget D B) (n : ℕ)
      → SendBudget.reserve b ≡ none
      → poll_rpcs service pool server request response encoder (suc rounds) (r, b, n)
        ≡ done (r, b, n)
  unfolding poll_rpcs
  poll_full rounds r b n e = ground (arith, e)

  poll_more :
      (rounds : ℕ) (r : RpcSubmitter C P) (b : SendBudget D B) (n : ℕ) (permit : SendPermit D B)
      → SendBudget.reserve b ≡ some permit
      → poll_rpcs service pool server request response encoder (suc rounds) (r, b, n)
        ≡ on_given service pool server request response encoder
            (
              record r {
                cells = (pool.poll_next r.cells r.rpcs).0;
                rpcs = (pool.poll_next r.cells r.rpcs).1;
              },
              b,
              n,
            )
            permit
            (poll_rpcs service pool server request response encoder rounds)
            (pool.poll_next r.cells r.rpcs).2
  unfolding poll_rpcs
  poll_more rounds r b n permit e = ground (arith, e)

  Ends : Run (RpcSubmitter C P × SendBudget D B × ℕ) → Type 0
  Ends o = (t : RpcSubmitter C P × SendBudget D B × ℕ) × (o ≡ done t) × Spends encoder b0 t.1

  -- Room for another round: fewer rounds are needed than there are.
  Ready :
      (RpcSubmitter C P × SendBudget D B × ℕ → Run (RpcSubmitter C P × SendBudget D B × ℕ))
      → ℕ
      → Type 0
  Ready again rounds =
      (t : RpcSubmitter C P × SendBudget D B × ℕ)
      → Spends encoder b0 t.1
      → measure t < rounds
      → Ends (again t)

  on_given-Ends :
      (rounds : ℕ) (h h' : Heap) (p p' : P) (r : RpcSubmitter C P) (b : SendBudget D B) (n : ℕ)
      (permit : SendPermit D B)
      (again : RpcSubmitter C P × SendBudget D B × ℕ → Run (RpcSubmitter C P × SendBudget D B × ℕ))
      (given : Poll (Option (Option (ℕ × RpcStreamEvent O) × RpcStream F S)))
      → pool.poll_next h p ≡ (h', p', given)
      → b.remaining + b.remaining + size p < suc rounds
      → Spends encoder b0 b
      → SendBudget.reserve b ≡ some permit
      → Ready again rounds
      → Ends (
          on_given service pool server request response encoder
            (record r { cells = h'; rpcs = p' }, b, n)
            permit
            again
            given)
  unfolding on_given Ready Ends Serves
  on_given-Ends rounds h h' p p' r b n permit again pending g lt s e ih = (_, refl, s)
  on_given-Ends rounds h h' p p' r b n permit again (ready none) g lt s e ih = (_, refl, s)
  on_given-Ends rounds h h' p p' r b n permit again (ready (some (none, rpc))) g lt s e ih =
      ih (record r { cells = h'; rpcs = p' }, b, n) s
        (omega (arith, law.given_size h h' p p' _ g, lt))
  on_given-Ends rounds h h' p p' r b n permit again (ready (some (some event, rpc))) g lt s e ih =
      served (serve-Serves (record r { cells = h'; rpcs = p' }) b n permit event rpc s e)
    where
      served :
          Serves (b.remaining + b.remaining + size p') (
            serve service pool server request response encoder
              (record r { cells = h'; rpcs = p' }, b, n)
              permit
              event
              rpc)
          → Ends (
              serve service pool server request response encoder
                (record r { cells = h'; rpcs = p' }, b, n)
                permit
                event
                rpc
              >>= again)
      served (t, run, s', le) =
          subst (λ o. Ends (o >>= again)) (sym run)
            (ih t s' (omega (arith, le, law.given_size h h' p p' _ g, lt)))

  poll_rpcs-Ends :
      (rounds : ℕ) (t : RpcSubmitter C P × SendBudget D B × ℕ)
      → Spends encoder b0 t.1
      → measure t < rounds
      → Ends (poll_rpcs service pool server request response encoder rounds t)
  unfolding Ready Ends
  poll_rpcs-Ends zero t s lt = absurd (omega arith)
  poll_rpcs-Ends (suc rounds) (r, b, n) s lt = elim (Option-cases (SendBudget.reserve b)) [
    | inl e ↦ ((r, b, n), poll_full rounds r b n e, s)
    | inr (permit, e) ↦ subst Ends (sym (poll_more rounds r b n permit e)) (
        on_given-Ends rounds r.cells _ r.rpcs _ r b n permit
          (poll_rpcs service pool server request response encoder rounds) _ refl lt s e
          (poll_rpcs-Ends rounds))
  ]

module _ {C P F S I O D B : Type 0} (service : Service F S O) (pool : Pool P F S O)
    (server : ConnectionService C F S I) (request : Message I) (response : Message O)
    (encoder : Encoder D O B) where
  -- The turn of a server's reactor ends, for any budget and any set of rpcs, once the rounds are more
  -- than twice what the budget has left and the rpcs in the pool; and it spends the budget only as a
  -- holder of it can: what it sends goes behind the buffers that were there, and is never more than
  -- what was left.
  pub poll_outbound_many-Spends :
      (size : P → ℕ) (rounds : ℕ) (r : RpcSubmitter C P) (b : SendBudget D B)
      → IsPool pool size
      → b.remaining + b.remaining + size r.rpcs < rounds
      → (r' : RpcSubmitter C P) × (b' : SendBudget D B) × (emitted : Bool) × (poll_outbound_many
            service pool server request response encoder rounds r b
          ≡ done (r', b', emitted))
        × Spends encoder b b'
  unfolding poll_outbound_many Ends
  poll_outbound_many-Spends size rounds r b law lt =
      let t = send_rejections service pool server request response encoder r.rejections (r, b, 0) in
      let out =
        send_rejections-Spent service pool server request response encoder b r.rejections r b 0
          kept in
      let (t', run, s) =
        poll_rpcs-Ends service pool server request response encoder size law b rounds t out.spends
          (omega (arith, out.less, ap size out.same_rpcs, lt)) in
      (t'.0, t'.1, ltb 0 (t'.2), ap (λ o. o >>= λ u. done (u.0, u.1, ltb 0 (u.2))) run, s)
