-- ===== src/Listener/InFlight.antt =====
-- What a TLS listener's accept asks of tokio's listener and of its JoinSet
-- (protosocket-connection/src/socket_listener.rs), and the first of its loops.
use mathlib.Core.List.{Perm, perm_middle}
use mathlib.Core.List.Perm
use protosocket.Prelude.{
  Poll, ready, pending, done, ℕ, zero, suc, ◌+◌, ◌<◌, ◌≡◌, refl, ap, subst, ◌∙◌, Bool, true, false,
  List, [], ◌∷◌, ◌++◌, length, map, none, some, arith,
}
use protosocket.Listener.{
  SocketResult, disconnect, SocketListener, StreamWithAddress, Attempt, ok, JoinSet,
  TlsSocketListener, accept_loop,
}

-- From `l` a listener answers the streams `xs`, then no stream but `last`, and is `l'`.
abbrev pub Accepts :
    {L S : Type 0} → SocketListener L S → L → List S → Poll (SocketResult S) → L → Type 0
Accepts tcp l [] last l' = tcp.poll_accept l ≡ (l', last)
Accepts {L} tcp l (x ∷ xs) last l' =
    (m : L) × (tcp.poll_accept l ≡ (m, ready (SocketResult.stream x))) × Accepts tcp m xs last l'

-- The answers that are no stream.
abbrev pub IsLast : {S : Type 0} → Poll (SocketResult S) → Type 0
IsLast (ready (SocketResult.stream s)) = ⊥
IsLast (ready disconnect) = Unit
IsLast pending = Unit

-- Whether an answer closes the listener.
abbrev pub closes : {S : Type 0} → Poll (SocketResult S) → Bool
closes (ready r) = true
closes pending = false

-- The tasks that are in a JoinSet. One that is joined was there, and the others stay.
pub record HoldsTasks {J H T A E : Type 0} (set : JoinSet J H T A E) : Type 0 where
  pub tasks : J → List (H × A)
  pub spawned : (j : J) (t : H × A) → tasks (set.spawn j t) ≡ t ∷ tasks j
  pub joined :
      (j j' : J) (r : Attempt E (Attempt E T × A))
      → set.poll_join_next j ≡ (j', ready (some r))
      → (before after : List (H × A)) × (t : H × A) × (tasks j ≡ before ++ t ∷ after)
        × (tasks j' ≡ before ++ after)
        × ((o : Attempt E T) (a : A) → r ≡ ok (o, a) → a ≡ t.1)
  pub waits : (j j' : J) → set.poll_join_next j ≡ (j', pending) → tasks j' ≡ tasks j
  pub empty :
      (j j' : J) → set.poll_join_next j ≡ (j', ready none) → (tasks j ≡ []) × (tasks j' ≡ [])

module _ {L J S H T A E : Type 0} (tcp : SocketListener L (StreamWithAddress S A))
    (tls_accept : S → H) (set : JoinSet J H T A E) (h : HoldsTasks set) where
  -- The handshakes that streams begin.
  abbrev pub begun : List (StreamWithAddress S A) → List (H × A)
  begun xs = map (λ s. (tls_accept s.stream, s.address)) xs

  -- What the first loop comes to.
  pub record Accepted (t : TlsSocketListener L J) (xs : List (StreamWithAddress S A)) (l' : L)
      (t' : TlsSocketListener L J) : Type 0 where
    pub listens : t'.listener ≡ l'
    pub in_flight :
        Perm (h.tasks t'.in_flight_connections) (begun xs ++ h.tasks t.in_flight_connections)
    pub many :
        length (h.tasks t'.in_flight_connections)
        ≡ length xs + length (h.tasks t.in_flight_connections)

  pub accept_loop-Accepted :
      (fuel : ℕ) (xs : List (StreamWithAddress S A)) (t : TlsSocketListener L J)
      (last : Poll (SocketResult (StreamWithAddress S A))) (l' : L)
      → length xs < fuel
      → IsLast last
      → Accepts tcp t.listener xs last l'
      → (t' : TlsSocketListener L J) × (accept_loop tcp tls_accept set fuel t
          ≡ done (t', closes last))
        × Accepted t xs l' t'
  unfolding accept_loop
  accept_loop-Accepted zero xs t last l' lt fin acc = absurd (omega arith)
  accept_loop-Accepted (suc fuel) [] t (ready (SocketResult.stream s)) l' lt fin acc = absurd fin
  accept_loop-Accepted (suc fuel) [] t (ready disconnect) l' lt fin acc = (
    record t { listener = l' },
    ground (arith, acc),
    record { listens = refl; in_flight = Perm.refl _; many = omega arith },
  )
  accept_loop-Accepted (suc fuel) [] t pending l' lt fin acc = (
    record t { listener = l' },
    ground (arith, acc),
    record { listens = refl; in_flight = Perm.refl _; many = omega arith },
  )
  accept_loop-Accepted (suc fuel) (x ∷ xs) t last l' lt fin (m, e, acc) =
      let task : H × A = (tls_accept x.stream, x.address) in
      let t1 : TlsSocketListener L J = record {
        listener = m;
        in_flight_connections = set.spawn t.in_flight_connections task;
      } in
      let (t', run, accepted) =
        accept_loop-Accepted fuel xs t1 last l' (omega (arith, lt)) fin acc in
      let tasks = h.tasks t.in_flight_connections in
      let first : accept_loop tcp tls_accept set (suc fuel) t
          ≡ accept_loop tcp tls_accept set fuel t1 =
        ground (arith, e) in
      (
        t',
        first ∙ run,
        record {
          listens = accepted.listens;
          in_flight =
              Perm.trans
                (subst (λ ts. Perm (h.tasks t'.in_flight_connections) (begun xs ++ ts))
                  (h.spawned t.in_flight_connections task) accepted.in_flight)
                (perm_middle (begun xs) tasks);
          many = omega (arith, accepted.many, ap length (h.spawned t.in_flight_connections task));
        },
      )
