-- ===== src/Listener/Handshakes.antt =====
-- What a TLS listener does with the connections that it accepted
-- (protosocket-connection/src/socket_listener.rs, TlsSocketListener).
use mathlib.Core.List.{Perm, perm_middle}
use mathlib.Core.List.Perm
use protosocket.Prelude.{
  Poll, ready, pending, done, ℕ, zero, suc, ◌+◌, ◌<◌, ◌≡◌, ◌⊎◌, inl, inr, refl, sym, ap, subst, ◌∙◌,
  Bool, true, false, Bool-cases, List, [], ◌∷◌, ◌++◌, length, Option, none, some, arith,
  length-append,
}
use protosocket.Listener.{
  SocketResult, disconnect, SocketListener, StreamWithAddress, Attempt, ok, failed, JoinSet,
  TlsSocketListener, join_loop, tls_poll_accept,
}
use protosocket.Listener.InFlight.{Accepts, IsLast, closes, HoldsTasks, begun, accept_loop-Accepted}

module _ {L J S H T A E : Type 0} (tcp : SocketListener L (StreamWithAddress S A))
    (tls_accept : S → H) (set : JoinSet J H T A E) (h : HoldsTasks set) where
  -- From `j` the JoinSet says of each of these tasks, in order, that its handshake failed, and is `j'`.
  pub data Refused : J → List (H × A) → J → Type 0 where
    none_refused : {j : J} → Refused j [] j
    one_refused :
        {j j' j'' : J} {xs : List (H × A)}
        → (x : H × A) (e : E) → set.poll_join_next j ≡ (j', ready (some (ok (failed e, x.1))))
        → Refused j' xs j''
        → Refused j (x ∷ xs) j''

  -- What the JoinSet says next, and the task that it says it of: that a handshake gave the stream that
  -- is answered; that a task could not be joined, for a disconnect; or that there is nothing to join.
  abbrev pub Hands : J → J → Poll (SocketResult (StreamWithAddress T A)) → List (H × A) → Type 0
  Hands j j' pending handed =
      (handed ≡ [])
      × ((set.poll_join_next j ≡ (j', pending)) ⊎ (set.poll_join_next j ≡ (j', ready none)))
  Hands j j' (ready (SocketResult.stream s)) handed =
      (x : H × A) × (handed ≡ x ∷ [])
      × (s.address ≡ x.1)
      × (set.poll_join_next j ≡ (j', ready (some (ok (ok s.stream, s.address)))))
  Hands j j' (ready disconnect) handed =
      (length handed ≡ 1) × (e : E) × (set.poll_join_next j ≡ (j', ready (some (failed e))))

  pub record Joined (t t' : TlsSocketListener L J)
      (answer : Poll (SocketResult (StreamWithAddress T A))) : Type 0 where
    pub refused : List (H × A)
    pub handed : List (H × A)
    pub left : J
    pub refusals : Refused t.in_flight_connections refused left
    pub hands : Hands left t'.in_flight_connections answer handed
    pub same_listener : t'.listener ≡ t.listener
    pub kept :
        Perm
          (h.tasks t.in_flight_connections)
          (refused ++ (handed ++ h.tasks t'.in_flight_connections))

  abbrev Joins : ℕ → TlsSocketListener L J → Type 0
  Joins fuel t =
      (t' : TlsSocketListener L J) × (answer : Poll (SocketResult (StreamWithAddress T A)))
      × (join_loop tcp tls_accept set fuel t ≡ done (t', answer))
      × Joined t t' answer

  taken_out :
      (j j' : J) (before after : List (H × A)) (t : H × A)
      → h.tasks j ≡ before ++ t ∷ after
      → h.tasks j' ≡ before ++ after
      → Perm (h.tasks j) (t ∷ h.tasks j')
  taken_out j j' before after t was now =
      subst (λ ts. Perm ts (t ∷ h.tasks j')) (sym was)
        (subst (λ ts. Perm (before ++ t ∷ after) (t ∷ ts)) (sym now) (perm_middle before after))

  -- One answer of the JoinSet that is a result.
  on_joined :
      (fuel : ℕ) (t : TlsSocketListener L J) (j : J) (r : Attempt E (Attempt E T × A))
      → set.poll_join_next t.in_flight_connections ≡ (j, ready (some r))
      → (length (h.tasks j) < length (h.tasks t.in_flight_connections)
          → Joins fuel (record t { in_flight_connections = j }))
      → Joins (suc fuel) t
  unfolding join_loop
  on_joined fuel t j (failed e) eq again =
      let (before, after, x, was, now, _) = h.joined t.in_flight_connections j (failed e) eq in
      (
        record t { in_flight_connections = j },
        ready disconnect,
        ground (arith, eq),
        record {
          refused = [];
          handed = x ∷ [];
          left = t.in_flight_connections;
          refusals = none_refused;
          hands = (refl, e, eq);
          same_listener = refl;
          kept = taken_out t.in_flight_connections j before after x was now;
        },
      )
  on_joined fuel t j (ok (ok s, a)) eq again =
      let (before, after, x, was, now, addr) =
        h.joined t.in_flight_connections j (ok (ok s, a)) eq in
      (
        record t { in_flight_connections = j },
        ready (SocketResult.stream (record { stream = s; address = a })),
        ground (arith, eq),
        record {
          refused = [];
          handed = x ∷ [];
          left = t.in_flight_connections;
          refusals = none_refused;
          hands = (x, refl, addr (ok s) a refl, eq);
          same_listener = refl;
          kept = taken_out t.in_flight_connections j before after x was now;
        },
      )
  on_joined fuel t j (ok (failed e, a)) eq again =
      let (before, after, x, was, now, addr) =
        h.joined t.in_flight_connections j (ok (failed e, a)) eq in
      let fewer : length (h.tasks j) < length (h.tasks t.in_flight_connections) = omega (
        arith,
        ap length was,
        ap length now,
        length-append before (x ∷ after),
        length-append before after,
      ) in
      let (t', answer, run, joined) = again fewer in
      let first : join_loop tcp tls_accept set (suc fuel) t
          ≡ join_loop tcp tls_accept set fuel (record t { in_flight_connections = j }) =
        ground (arith, eq) in
      (
        t',
        answer,
        first ∙ run,
        record {
          refused = x ∷ joined.refused;
          handed = joined.handed;
          left = joined.left;
          refusals =
              one_refused x e
                (eq ∙ ap (λ b. (j, ready (some (ok (failed e, b))))) (addr (failed e) a refl))
                joined.refusals;
          hands = joined.hands;
          same_listener = joined.same_listener;
          kept =
              Perm.trans (taken_out t.in_flight_connections j before after x was now)
                (Perm.cons x joined.kept);
        },
      )

  nothing_joined :
      (fuel : ℕ) (t : TlsSocketListener L J) (j : J)
      → join_loop tcp tls_accept set (suc fuel) t
        ≡ done (record t { in_flight_connections = j }, pending)
      → h.tasks j ≡ h.tasks t.in_flight_connections
      → ((set.poll_join_next t.in_flight_connections ≡ (j, pending))
          ⊎ (set.poll_join_next t.in_flight_connections ≡ (j, ready none)))
      → Joins (suc fuel) t
  nothing_joined fuel t j run same nothing = (
    record t { in_flight_connections = j },
    pending,
    run,
    record {
      refused = [];
      handed = [];
      left = t.in_flight_connections;
      refusals = none_refused;
      hands = (refl, nothing);
      same_listener = refl;
      kept = subst (λ ts. Perm (h.tasks t.in_flight_connections) ts) (sym same) (Perm.refl _);
    },
  )

  on_answer :
      (fuel : ℕ) (t : TlsSocketListener L J) (j : J)
      (p : Poll (Option (Attempt E (Attempt E T × A))))
      → set.poll_join_next t.in_flight_connections ≡ (j, p)
      → (length (h.tasks j) < length (h.tasks t.in_flight_connections)
          → Joins fuel (record t { in_flight_connections = j }))
      → Joins (suc fuel) t
  unfolding join_loop
  on_answer fuel t j (ready (some r)) eq again = on_joined fuel t j r eq again
  on_answer fuel t j (ready none) eq again =
      let (none_before, none_after) = h.empty t.in_flight_connections j eq in
      nothing_joined fuel t j (ground (arith, eq)) (none_after ∙ sym none_before) (inr eq)
  on_answer fuel t j pending eq again =
      nothing_joined fuel t j (ground (arith, eq)) (h.waits t.in_flight_connections j eq) (inl eq)

  join_loop-Joins :
      (fuel : ℕ) (t : TlsSocketListener L J)
      → length (h.tasks t.in_flight_connections) < fuel
      → Joins fuel t
  join_loop-Joins zero t lt = absurd (omega arith)
  join_loop-Joins (suc fuel) t lt =
      let (j, p) = set.poll_join_next t.in_flight_connections in
      on_answer fuel t j p refl (λ fewer.
        join_loop-Joins fuel (record t { in_flight_connections = j }) (omega (arith, fewer, lt)))

  -- The answer, after a listener that has closed or that waits. `j` has the handshakes in flight when
  -- the first loop is over, and `j'` those at the end.
  abbrev pub Answered :
      Bool
      → J
      → J
      → Poll (SocketResult (StreamWithAddress T A))
      → List (H × A)
      → List (H × A)
      → Type 0
  Answered true j j' answer refused handed =
      (answer ≡ ready disconnect) × (refused ≡ []) × (handed ≡ []) × (j' ≡ j)
  Answered false j j' answer refused handed =
      (left : J) × Refused j refused left × Hands left j' answer handed

  -- What becomes of a poll that accepted the streams `xs` before the answer `last`.
  pub record Serves (t : TlsSocketListener L J) (xs : List (StreamWithAddress S A))
      (last : Poll (SocketResult (StreamWithAddress S A))) (t' : TlsSocketListener L J)
      (answer : Poll (SocketResult (StreamWithAddress T A))) : Type 0 where
    pub refused : List (H × A)
    pub handed : List (H × A)
    pub running : J
    pub started :
        Perm (h.tasks running) (begun tcp tls_accept set h xs ++ h.tasks t.in_flight_connections)
    pub kept :
        Perm
          (begun tcp tls_accept set h xs ++ h.tasks t.in_flight_connections)
          (refused ++ (handed ++ h.tasks t'.in_flight_connections))
    pub answered : Answered (closes last) running t'.in_flight_connections answer refused handed

  -- One poll of a TLS listener ends, over a listener that answers finitely many streams and then
  -- waits or closes, with fuel above the number of these and of the handshakes in flight. Each
  -- connection that was accepted or in flight before is afterwards still in flight, or the JoinSet
  -- said that its handshake failed, or it is what the answer stands for, and none is there twice. The
  -- answer is what the JoinSet says after those refusals: the stream of the first handshake that has
  -- succeeded, with its connection's address; a disconnect for a task that could not be joined; or to
  -- wait, when it has nothing to join. If the listener closes, so does this one, with all handshakes
  -- in flight.
  pub tls_poll_accept-Serves :
      (fuel fuel' : ℕ) (xs : List (StreamWithAddress S A)) (t : TlsSocketListener L J)
      (last : Poll (SocketResult (StreamWithAddress S A))) (l' : L)
      → length xs < fuel
      → length xs + length (h.tasks t.in_flight_connections) < fuel'
      → IsLast last
      → Accepts tcp t.listener xs last l'
      → (t' : TlsSocketListener L J) × (answer : Poll (SocketResult (StreamWithAddress T A)))
        × (tls_poll_accept tcp tls_accept set fuel fuel' t ≡ done (t', answer))
        × (t'.listener ≡ l')
        × Serves t xs last t' answer
  unfolding tls_poll_accept
  tls_poll_accept-Serves fuel fuel' xs t last l' lt lt' fin acc =
      let (t1, run, accepted) =
        accept_loop-Accepted tcp tls_accept set h fuel xs t last l' lt fin acc in
      elim (Bool-cases (closes last)) [
        | inl e ↦ (
          t1,
          ready disconnect,
          ground (arith, run, e),
          accepted.listens,
          record {
            refused = [];
            handed = [];
            running = t1.in_flight_connections;
            started = accepted.in_flight;
            kept = Perm.symm accepted.in_flight;
            answered = rw e (refl, refl, refl, refl);
          },
        )
        | inr e ↦
            let (t', answer, run', joined) =
              join_loop-Joins fuel' t1 (omega (arith, lt', accepted.many)) in
            (
              t',
              answer,
              ground (arith, run, e, run'),
              joined.same_listener ∙ accepted.listens,
              record {
                refused = joined.refused;
                handed = joined.handed;
                running = t1.in_flight_connections;
                started = accepted.in_flight;
                kept = Perm.trans (Perm.symm accepted.in_flight) joined.kept;
                answered = rw e (joined.left, joined.refusals, joined.hands);
              },
            )
      ]
