-- ===== src/Connection/Send/Attempts.antt =====
-- One attempt to write or flush (protosocket-connection/src/connection.rs, poll_writev_buffers).
use protosocket.Prelude.{
  ℕ, ◌≤◌, ◌<◌, ◌≡◌, ◌≢◌, inl, inr, refl, sym, ap, ◌∙◌, true, false, ◌==◌, Bool-cases, List, ◌++◌,
  length, take, drop, Option, none, some, arith, append-nil, append_assoc, length-append,
  take-append-drop, take-append_left,
}
use protosocket.Codec.{Codec, IoError, would_block, interrupted, other}
use protosocket.Reactor.{MessageReactor, Stream, Buf, Io, finished, failed, waiting}
use protosocket.Connection.State.{Connection}
use protosocket.Connection.Send.{
  Written, ok, err, gather, advance_buffers, advance_send_buffers, on_error, on_written, on_flushed,
  write_once, flush_once, write_or_flush,
}
use protosocket.Connection.Send.Sides.{receiving, Rests}
use protosocket.Connection.Send.Wire.{
  flat, wire, IsContiguous, gather-Prefix, advance_buffers-Advanced,
}

-- Errors after which the loop goes round again.
abbrev pub Retries : IoError → Type 0
Retries other = ⊥
Retries _ = Unit {0}

module _ {S : Type 0} (sent : S → List ℕ) (left : S → ℕ) where
  -- What a write of `slices` does to the stream: `sent` is what the peer gets, `left` how many more
  -- attempts it can answer before it waits.
  abbrev pub Wrote : S → List (List ℕ) → S × Io ℕ → Type 0
  Wrote s slices (s', finished n) =
      (n ≤ length (flat slices))
      × (sent s' ≡ sent s ++ take n (flat slices))
      × (n ≢ 0 → left s' < left s)
  Wrote s slices (s', failed e) = (sent s' ≡ sent s) × (Retries e → left s' < left s)
  Wrote s slices (s', waiting) = sent s' ≡ sent s

  abbrev pub Flushed : S → S × Io (Unit {0}) → Type 0
  Flushed s (s', failed e) = (sent s' ≡ sent s) × (Retries e → left s' < left s)
  Flushed s (s', _) = sent s' ≡ sent s

-- What a connection expects of the writing half of its stream.
pub record IsWritable {S : Type 0} (stream : Stream S) (sent : S → List ℕ) (left : S → ℕ)
    : Type 0 where
  pub writes :
      (s : S) (slices : List (List ℕ))
      → Wrote sent left s slices (stream.poll_write_vectored s slices)
  pub flushes : (s : S) → Flushed sent left s (stream.poll_flush s)

module _ {S D R B I O L : Type 0} (stream : Stream S) (buf : Buf B) (codec : Codec D I O B)
    (reactor : MessageReactor R D B I O L) (contents : B → List ℕ) (law : IsContiguous buf contents)
    (sent : S → List ℕ) (left : S → ℕ) (writable : IsWritable stream sent left) where
  -- What the peer has, and what it is still to get.
  abbrev pub output : Connection S D R B L → List ℕ
  output c = sent c.stream ++ wire contents c.send_buffer

  -- An attempt to write: the output is as before, the queue and the receiving half are left alone,
  -- and where it parks, it rests with the buffers it had.
  pub record Steps (c : Connection S D R B L) (result : Option Written) (c' : Connection S D R B L)
      : Type 0 where
    pub kept : output c' ≡ output c
    pub fewer : length c'.send_buffer ≤ length c.send_buffer
    pub same_queue : c'.outbound_messages ≡ c.outbound_messages
    pub same_max : c'.max_queued_send_messages ≡ c.max_queued_send_messages
    pub progress : result ≡ none → left c'.stream < left c.stream
    pub same_receiving : receiving c' ≡ receiving c
    pub settles :
        result ≡ some (ok false)
        → Rests stream buf codec reactor c' × (c'.send_buffer ≡ c.send_buffer)

  abbrev with_stream : Connection S D R B L → S → Connection S D R B L
  with_stream c s = record c { stream = s }

  same_output :
      (c : Connection S D R B L) (s : S) (result : Option Written)
      → sent s ≡ sent c.stream
      → (result ≡ none → left s < left c.stream)
      → (result ≡ some (ok false) → Rests stream buf codec reactor (with_stream c s))
      → Steps c result (with_stream c s)
  same_output c s result e p rests = record {
    kept = ap (λ l. l ++ wire contents c.send_buffer) e;
    fewer = omega arith;
    same_queue = refl;
    same_max = refl;
    progress = p;
    same_receiving = refl;
    settles = λ g. (rests g, refl);
  }

  advanced_output :
      (c : Connection S D R B L) (s : S) (n : ℕ)
      → n ≤ length (flat (gather stream buf codec reactor c.send_buffer 0))
      → sent s ≡ sent c.stream ++ take n (flat (gather stream buf codec reactor c.send_buffer 0))
      → left s < left c.stream
      → Steps c none (advance_send_buffers stream buf codec reactor (with_stream c s) n)
  unfolding advance_send_buffers
  advanced_output c s n le e lt =
      let slices = flat (gather stream buf codec reactor c.send_buffer 0) in
      let (rest, pre) = gather-Prefix stream buf codec reactor contents law c.send_buffer 0 in
      let inside : n ≤ length (wire contents c.send_buffer) =
        omega (arith, le, ap length pre, length-append slices rest) in
      let adv =
        advance_buffers-Advanced stream buf codec reactor contents law n c.codec c.send_buffer
          inside in
      let front : take n slices ≡ take n (wire contents c.send_buffer) =
        sym (ap (take n) pre ∙ take-append_left n slices rest le) in
      record {
        kept =
            ap
              (λ l.
                l
                ++ wire contents
                    (advance_buffers stream buf codec reactor n c.codec c.send_buffer).1)
              (e ∙ ap (λ l. sent c.stream ++ l) front)
            ∙ ap (λ l. (sent c.stream ++ take n (wire contents c.send_buffer)) ++ l) adv.dropped
            ∙ append_assoc (sent c.stream) (take n (wire contents c.send_buffer))
                (drop n (wire contents c.send_buffer))
            ∙ ap (λ l. sent c.stream ++ l) (take-append-drop n (wire contents c.send_buffer));
        fewer = adv.fewer;
        same_queue = refl;
        same_max = refl;
        progress = λ _. lt;
        same_receiving = refl;
        settles = λ f. cc;
      }

  abbrev pub Tries : Option Written × Connection S D R B L → Connection S D R B L → Type 0
  Tries (result, c') c = Steps c result c'

  nothing_taken :
      (c : Connection S D R B L) (n : ℕ)
      → n ≡ 0
      → sent c.stream ++ take n (flat (gather stream buf codec reactor c.send_buffer 0))
        ≡ sent c.stream
  nothing_taken c n z =
      ap (λ k. sent c.stream ++ take k (flat (gather stream buf codec reactor c.send_buffer 0))) z
      ∙ append-nil (sent c.stream)

  on_error-Steps :
      (c : Connection S D R B L) (s : S) (e : IoError)
      → sent s ≡ sent c.stream
      → (Retries e → left s < left c.stream)
      → Steps c (on_error stream buf codec reactor e) (with_stream c s)
  unfolding on_error
  on_error-Steps c s would_block w p = same_output c s none w (λ _. p tt) (λ f. cc)
  on_error-Steps c s interrupted w p = same_output c s none w (λ _. p tt) (λ f. cc)
  on_error-Steps c s other w p = same_output c s (some err) w (λ f. cc) (λ f. cc)

  on_written-Tries :
      (c : Connection S D R B L) (s : S) (out : Io ℕ)
      → Wrote sent left c.stream (gather stream buf codec reactor c.send_buffer 0) (s, out)
      → stream.poll_write_vectored c.stream (gather stream buf codec reactor c.send_buffer 0)
        ≡ (s, out)
      → Tries (on_written stream buf codec reactor out (with_stream c s)) c
  unfolding on_written
  on_written-Tries c s waiting w e =
      same_output c s (some (ok false)) w (λ f. cc) (λ _. inl (c.stream, e))
  on_written-Tries c s (failed e) (w, p) _ = on_error-Steps c s e w p
  on_written-Tries c s (finished n) (le, w, p) _ = elim (Bool-cases (n == 0)) [
    | inl z ↦ rw z (
        same_output c s (some (ok true)) (w ∙ nothing_taken c n (ground (arith, z))) (λ f. cc)
          (λ f. cc))
    | inr nz ↦ rw nz (advanced_output c s n le w (p (λ f. ground (arith, nz, f))))
  ]

  on_flushed-Steps :
      (c : Connection S D R B L) (s : S) (out : Io (Unit {0}))
      → Flushed sent left c.stream (s, out)
      → length c.send_buffer ≡ 0
      → stream.poll_flush c.stream ≡ (s, out)
      → Steps c (on_flushed stream buf codec reactor out) (with_stream c s)
  unfolding on_flushed
  on_flushed-Steps c s waiting w z e =
      same_output c s (some (ok false)) w (λ f. cc) (λ _. inr (z, (c.stream, inl e)))
  on_flushed-Steps c s (finished _) w z e =
      same_output c s (some (ok false)) w (λ f. cc) (λ _. inr (z, (c.stream, inr e)))
  on_flushed-Steps c s (failed e) (w, p) _ _ = on_error-Steps c s e w p

  pub write_or_flush-Tries :
      (c : Connection S D R B L) → Tries (write_or_flush stream buf codec reactor c) c
  unfolding write_or_flush write_once flush_once
  write_or_flush-Tries c = elim (Bool-cases (length c.send_buffer == 0)) [
    | inl empty ↦
        rw empty (on_flushed-Steps c _ _ (writable.flushes c.stream) (ground (arith, empty)) refl)
    | inr some_buffers ↦ rw some_buffers (
        on_written-Tries c _ _
          (writable.writes c.stream (gather stream buf codec reactor c.send_buffer 0)) refl)
  ]
