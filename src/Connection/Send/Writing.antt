-- ===== src/Connection/Send/Writing.antt =====
-- Writing loses no byte and ends (protosocket-connection/src/connection.rs, poll_writev_buffers).
use protosocket.Prelude.{
  done, ℕ, zero, suc, ◌^◌, ◌≤◌, ◌<◌, ◌≡◌, ◌⊎◌, inl, inr, refl, sym, ap, subst, ◌∙◌, Bool, true,
  false, Option-cases, List, ◌++◌, length, none, some, arith, append_assoc,
}
use protosocket.Codec.{Codec}
use protosocket.Reactor.{MessageReactor, Stream, Buf}
use protosocket.Spillway.Receiver.Validity.{stored, IsValid}
use protosocket.Connection.State.{Connection}
use protosocket.Connection.Send.{
  Written, ok, write_or_flush, poll_serialize_outbound_messages, poll_writev_buffers,
}
use protosocket.Connection.Send.Sides.{receiving, Rests}
use protosocket.Connection.Send.Wire.{wire, wire-append, IsContiguous}
use protosocket.Connection.Send.Serialize.{Serializes, poll_serialize_outbound_messages-Serializes}
use protosocket.Connection.Send.Draining.{IsThrifty, Queued}
use protosocket.Connection.Send.Attempts.{IsWritable, output, write_or_flush-Tries}

module _ {S D R B I O L : Type 0} (stream : Stream S) (buf : Buf B) (codec : Codec D I O B)
    (reactor : MessageReactor R D B I O L) (contents : B → List ℕ) (law : IsContiguous buf contents)
    (sent : S → List ℕ) (left : S → ℕ) (writable : IsWritable stream sent left) where
  -- The loop returns. Buffers were added, and what the peer has and what is queued for it is what it
  -- was before, with the bytes of those buffers behind it. If it parks, it left no message in the
  -- queue that there was room for.
  unfoldable pub Writes : ℕ → Connection S D R B L → Type 0
  Writes fuel c =
      (w : Written) × (c' : Connection S D R B L) × (added : List B) × (poll_writev_buffers stream
          buf codec reactor fuel c
        ≡ done (w, c'))
      × (output stream buf codec reactor contents law sent left writable c'
          ≡ output stream buf codec reactor contents law sent left writable c
            ++ wire contents added)
      × (length c'.send_buffer ≤ c.max_queued_send_messages)
      × IsValid c'.outbound_messages
      × (receiving c' ≡ receiving c)
      × (w ≡ ok false
          → Rests stream buf codec reactor c'
            × ((stored c'.outbound_messages ≡ 0)
                ⊎ (length c'.send_buffer ≡ c.max_queued_send_messages)))

  output-Queued :
      (c c' : Connection S D R B L) (added : List B)
      → Queued stream buf codec reactor c added c'
      → output stream buf codec reactor contents law sent left writable c'
        ≡ output stream buf codec reactor contents law sent left writable c ++ wire contents added
  output-Queued c c' added q =
      ap (λ l. sent c'.stream ++ wire contents l) q.behind
      ∙ ap (λ s. sent s ++ wire contents (c.send_buffer ++ added)) q.same_stream
      ∙ ap (λ l. sent c.stream ++ l) (wire-append contents c.send_buffer added)
      ∙ sym (append_assoc (sent c.stream) (wire contents c.send_buffer) (wire contents added))

  module _ (fuel : ℕ) (c c' : Connection S D R B L) (over : Bool)
      (e : poll_serialize_outbound_messages stream buf codec reactor c ≡ done (over, c')) where
    loop_over :
        over ≡ true → poll_writev_buffers stream buf codec reactor (suc fuel) c ≡ done (ok true, c')
    unfolding poll_writev_buffers
    loop_over t = ground (arith, e, t)

    loop_returns :
        (w : Written)
        → over ≡ false
        → (write_or_flush stream buf codec reactor c').0 ≡ some w
        → poll_writev_buffers stream buf codec reactor (suc fuel) c
          ≡ done (w, (write_or_flush stream buf codec reactor c').1)
    unfolding poll_writev_buffers
    loop_returns w t f = ground (arith, e, t, f)

    loop_again :
        over ≡ false
        → (write_or_flush stream buf codec reactor c').0 ≡ none
        → poll_writev_buffers stream buf codec reactor (suc fuel) c
          ≡ poll_writev_buffers stream buf codec reactor fuel
              (write_or_flush stream buf codec reactor c').1
    unfolding poll_writev_buffers
    loop_again t f = ground (arith, e, t, f)

  module _ (thrifty : IsThrifty stream buf codec reactor) where
    attempted_Writes :
        (fuel : ℕ) (c : Connection S D R B L)
        → ((c' : Connection S D R B L)
            → IsValid c'.outbound_messages
            → length c'.send_buffer ≤ c'.max_queued_send_messages
            → c'.max_queued_send_messages ≡ c.max_queued_send_messages
            → left c'.stream < left c.stream
            → Writes fuel c')
        → Serializes stream buf codec reactor c
        → Writes (suc fuel) c
    unfolding Writes Serializes
    attempted_Writes fuel c ih (true, c', added, run, q, bounded, _, _) = (
      ok true,
      c',
      added,
      loop_over fuel c c' true run refl,
      output-Queued c c' added q,
      bounded,
      q.valid,
      q.same_receiving,
      λ f. cc,
    )
    attempted_Writes fuel c ih (false, c', added, run, q, bounded, _, full) =
        let steps =
          write_or_flush-Tries stream buf codec reactor contents law sent left writable c' in
        let c'' = (write_or_flush stream buf codec reactor c').1 in
        let valid = subst IsValid (sym steps.same_queue) q.valid in
        elim (Option-cases (write_or_flush stream buf codec reactor c').0) [
          | inl again ↦
              let (w, c3, added', run', out, bounded', valid', received, rests) =
                ih c'' valid
                  (omega (arith, bounded, steps.fewer, steps.same_max, q.max_queued_send_messages))
                  (steps.same_max ∙ q.max_queued_send_messages)
                  (omega (arith, steps.progress again, ap left q.same_stream)) in
              (
                w,
                c3,
                added ++ added',
                loop_again fuel c c' false run refl again ∙ run',
                out
                    ∙ ap (λ l. l ++ wire contents added') (steps.kept ∙ output-Queued c c' added q)
                    ∙ append_assoc
                        (output stream buf codec reactor contents law sent left writable c)
                        (wire contents added) (wire contents added')
                    ∙ ap
                        (λ l.
                          output stream buf codec reactor contents law sent left writable c ++ l)
                        (sym (wire-append contents added added')),
                omega (arith, bounded', steps.same_max, q.max_queued_send_messages),
                valid',
                received ∙ steps.same_receiving ∙ q.same_receiving,
                λ f. (
                  (rests f).0,
                  elim ((rests f).1) [
                    | inl none_left ↦ inl none_left
                    | inr no_room ↦ inr (no_room ∙ steps.same_max ∙ q.max_queued_send_messages)
                  ],
                ),
              )
          | inr (w, e) ↦ (
            w,
            c'',
            added,
            loop_returns fuel c c' false run w refl e,
            steps.kept ∙ output-Queued c c' added q,
            omega (arith, bounded, steps.fewer),
            valid,
            steps.same_receiving ∙ q.same_receiving,
            λ f. (
              (steps.settles (e ∙ ap some f)).0,
              elim full [
                | inl none_left ↦ inl (ap stored steps.same_queue ∙ none_left)
                | inr no_room ↦ inr (ap length (steps.settles (e ∙ ap some f)).1 ∙ no_room)
              ],
            ),
          )
        ]

    -- The writing loop ends, for buffers of one chunk, a reactor that keeps to
    -- its budget and a stream that answers `left` more attempts at most before it waits. What the
    -- peer got, followed by the bytes that are still queued, is what it was before followed by the
    -- bytes of the buffers that were added: none is lost, repeated or moved. The send buffer stays
    -- within `max_queued_send_messages`, the queue stays valid, and the receiving half is left alone.
    -- If it parks, the stream is to be woken for more, or all is written and flushed; and a message
    -- is left in the queue only if the send buffer is full.
    pub poll_writev_buffers-Writes :
        (fuel : ℕ) (c : Connection S D R B L)
        → IsValid c.outbound_messages
        → length c.send_buffer ≤ c.max_queued_send_messages
        → c.max_queued_send_messages < 2 ^ 64
        → left c.stream < fuel
        → Writes fuel c
    poll_writev_buffers-Writes zero c h bounded word lt = absurd (omega arith)
    poll_writev_buffers-Writes (suc fuel) c h bounded word lt =
        attempted_Writes fuel c
          (λ c' h' bounded' same less.
            poll_writev_buffers-Writes fuel c' h' bounded' (omega (arith, same, word))
              (omega (arith, less, lt)))
          (poll_serialize_outbound_messages-Serializes stream buf codec reactor thrifty c h bounded
            word)
