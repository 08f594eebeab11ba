-- ===== src/Connection/Receive/Consumes.antt =====
-- What a pass over the received bytes means, with no cursor and no buffer: the specification of
-- read_inbound_messages_and_react (protosocket-connection/src/connection.rs).
use protosocket.Prelude.{
  ℕ, ◌+◌, ◌≤◌, ◌<◌, ◌≡◌, ◌≢◌, ◌⊎◌, inl, inr, arith, refl, ◌∙◌, List, [], length, drop, drop-drop,
}
use protosocket.Codec.{
  Codec, message, refused, incomplete_buffer, invalid_buffer, skip_message, go_on, disconnect,
}
use protosocket.Reactor.{MessageReactor}
use protosocket.Connection.State.{ReadBufferState, pending, disconnected}

module _ {D R B I O L : Type 0} (codec : Codec D I O B) (reactor : MessageReactor R D B I O L)
    (max : ℕ) where
  -- `Consumes d r bytes state d' r' rest`: the pass that starts with the codec `d`, the reactor `r`
  -- and the bytes `bytes` ends in `state` with `d'`, `r'` and the bytes `rest`.
  pub data Consumes : D → R → List ℕ → ReadBufferState → D → R → List ℕ → Type 0 where
    drained : {d : D} {r : R} → Consumes d r [] pending d r []
    took :
        {d d' d'' : D} {r r' r'' : R} {bytes rest : List ℕ} {state : ReadBufferState} {n : ℕ}
        {m : I}
        → bytes ≢ []
        → codec.decode d bytes ≡ (d', message n m)
        → reactor.on_inbound_message r m ≡ (r', go_on)
        → Consumes d' r' (drop n bytes) state d'' r'' rest
        → Consumes d r bytes state d'' r'' rest
    stopped :
        {d d' : D} {r r' : R} {bytes : List ℕ} {n : ℕ} {m : I}
        → bytes ≢ []
        → codec.decode d bytes ≡ (d', message n m)
        → reactor.on_inbound_message r m ≡ (r', disconnect)
        → Consumes d r bytes disconnected d' r' bytes
    skipped :
        {d d' d'' : D} {r r'' : R} {bytes rest : List ℕ} {state : ReadBufferState} {n : ℕ}
        → bytes ≢ []
        → codec.decode d bytes ≡ (d', refused (skip_message n))
        → n ≤ length bytes
        → Consumes d' r (drop n bytes) state d'' r'' rest
        → Consumes d r bytes state d'' r'' rest
    skips_later :
        {d d' : D} {r : R} {bytes : List ℕ} {n : ℕ}
        → bytes ≢ []
        → codec.decode d bytes ≡ (d', refused (skip_message n))
        → length bytes < n
        → Consumes d r bytes pending d' r bytes
    waits :
        {d d' : D} {r : R} {bytes : List ℕ} {n : ℕ}
        → bytes ≢ []
        → codec.decode d bytes ≡ (d', refused (incomplete_buffer n))
        → n ≤ max
        → Consumes d r bytes pending d' r bytes
    too_long :
        {d d' : D} {r : R} {bytes : List ℕ} {n : ℕ}
        → bytes ≢ []
        → codec.decode d bytes ≡ (d', refused (incomplete_buffer n))
        → max < n
        → Consumes d r bytes disconnected d' r bytes
    broken :
        {d d' : D} {r : R} {bytes : List ℕ}
        → bytes ≢ []
        → codec.decode d bytes ≡ (d', refused invalid_buffer)
        → Consumes d r bytes disconnected d' r bytes

  -- A pass leaves an end of the bytes that it was given.
  pub Consumes-suffix :
      {d d' : D} {r r' : R} {bytes rest : List ℕ} {state : ReadBufferState}
      → Consumes d r bytes state d' r' rest
      → (k : ℕ) × (rest ≡ drop k bytes)
  Consumes-suffix drained = (0, refl)
  Consumes-suffix {bytes = bs} (took {n = n} _ _ _ more) =
      let (k, e) = Consumes-suffix more in (n + k, e ∙ drop-drop k n bs)
  Consumes-suffix (stopped _ _ _) = (0, refl)
  Consumes-suffix {bytes = bs} (skipped {n = n} _ _ _ more) =
      let (k, e) = Consumes-suffix more in (n + k, e ∙ drop-drop k n bs)
  Consumes-suffix (skips_later _ _ _) = (0, refl)
  Consumes-suffix (waits _ _ _) = (0, refl)
  Consumes-suffix (too_long _ _ _) = (0, refl)
  Consumes-suffix (broken _ _) = (0, refl)

module _ {D I O B : Type 0} (codec : Codec D I O B) (max : ℕ) where
  -- What the documentation of `Decoder` and of `DeserializeError` asks of a codec: a message takes at
  -- least one byte and no more than there are, and what is incomplete needs more bytes than there
  -- are. A skip is of at least one byte and fits the buffer.
  pub record IsHonest : Type 0 where
    pub takes :
        (d d' : D) (bytes : List ℕ) (n : ℕ) (m : I)
        → codec.decode d bytes ≡ (d', message n m)
        → (0 < n) × (n ≤ length bytes)
    pub skips :
        (d d' : D) (bytes : List ℕ) (n : ℕ)
        → codec.decode d bytes ≡ (d', refused (skip_message n))
        → (0 < n) × (n ≤ max)
    pub asks :
        (d d' : D) (bytes : List ℕ) (n : ℕ)
        → codec.decode d bytes ≡ (d', refused (incomplete_buffer n))
        → length bytes < n

module _ {D R B I O L : Type 0} (codec : Codec D I O B) (reactor : MessageReactor R D B I O L)
    (max : ℕ) where
  pub Consumes-state :
      {d d' : D} {r r' : R} {bytes rest : List ℕ} {state : ReadBufferState}
      → Consumes codec reactor max d r bytes state d' r' rest
      → (state ≡ pending) ⊎ (state ≡ disconnected)
  Consumes-state drained = inl refl
  Consumes-state (took _ _ _ more) = Consumes-state more
  Consumes-state (stopped _ _ _) = inr refl
  Consumes-state (skipped _ _ _ more) = Consumes-state more
  Consumes-state (skips_later _ _ _) = inl refl
  Consumes-state (waits _ _ _) = inl refl
  Consumes-state (too_long _ _ _) = inr refl
  Consumes-state (broken _ _) = inr refl

  -- A pass that parks leaves fewer bytes than the longest message.
  pub Consumes-short :
      {d d' : D} {r r' : R} {bytes rest : List ℕ} {state : ReadBufferState}
      → IsHonest codec max
      → 0 < max
      → Consumes codec reactor max d r bytes state d' r' rest
      → state ≡ pending
      → length rest < max
  Consumes-short h pos drained e = pos
  Consumes-short h pos (took _ _ _ more) e = Consumes-short h pos more e
  Consumes-short h pos (stopped _ _ _) e = absurd (ground (arith, e))
  Consumes-short h pos (skipped _ _ _ more) e = Consumes-short h pos more e
  Consumes-short {bytes = bs} h pos (skips_later {d = d} {d' = d'} {n = n} _ dec lt) e =
      omega (arith, h.skips d d' bs n dec)
  Consumes-short {bytes = bs} h pos (waits {d = d} {d' = d'} {n = n} _ dec le) e =
      omega (arith, h.asks d d' bs n dec)
  Consumes-short h pos (too_long _ _ _) e = absurd (ground (arith, e))
  Consumes-short h pos (broken _ _) e = absurd (ground (arith, e))
