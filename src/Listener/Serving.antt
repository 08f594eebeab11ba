-- ===== src/Listener/Serving.antt =====
-- The loop of both servers, `poll` in protosocket-server/src/connection_server.rs and in
-- protosocket-rpc/src/server/socket_server.rs: accept what there is, and serve each stream.
use protosocket.Prelude.{
  Poll, ready, pending, Run, done, starved, ℕ, zero, suc, ◌<◌, ◌≡◌, refl, sym, ap, subst, ◌∙◌,
  if◌then◌else◌, List, [], ◌∷◌, length, arith,
}
use protosocket.Spillway.Sender.{Sender}
use protosocket.Listener.{SocketResult, disconnect, SocketListener}
use protosocket.Listener.InFlight.{Accepts, IsLast, closes}

-- What a server does with the connection `X` that it made of a stream: it hands it to be spawned, and
-- then, at the end of the block, drops the first sender of the connection's channel. What that drop
-- does comes after the connection is handed, and after whatever the spawned task did by then.
pub record Spawned (X : Type 0) : Type 0 where
  pub connection : X
  pub then_dropped : Sender

-- Serve the streams in order.
abbrev pub serve_all : {V S : Type 0} → (V → S → V) → V → List S → V
serve_all serve v [] = v
serve_all serve v (x ∷ xs) = serve_all serve (serve v x) xs

-- A server `V` has a listener of state `L`, which `get` reads and `put` writes.
module _ {V L S : Type 0} (listener : SocketListener L S) (get : V → L) (put : V → L → V)
    (serve : V → S → V) where
  -- `Poll::Ready(Ok(()))` is `ready tt`.
  unfoldable pub serve_loop : ℕ → V → Run (V × Poll (Unit {0}))
  serve_loop zero v = starved
  serve_loop (suc fuel) v =
      let (l, p) = listener.poll_accept (get v) in
      let v' = put v l in
      elim p [
        | pending ↦ done (v', pending)
        | ready r ↦ elim r [
          | disconnect ↦ done (v', ready tt)
          | SocketResult.stream s ↦ serve_loop fuel (serve v' s)
        ]
      ]

  module _ (get-put : (v : V) (l : L) → get (put v l) ≡ l)
      (put-put : (v : V) (l l' : L) → put (put v l) l' ≡ put v l')
      (serve-put : (v : V) (l : L) (s : S) → serve (put v l) s ≡ put (serve v s) l) where
    serve_all-put :
        (xs : List S) (v : V) (l : L) → serve_all serve (put v l) xs ≡ put (serve_all serve v xs) l
    serve_all-put [] v l = refl
    serve_all-put (x ∷ xs) v l =
        ap (λ w. serve_all serve w xs) (serve-put v l x) ∙ serve_all-put xs (serve v x) l

    pub serve_loop-serve_all :
        (fuel : ℕ) (xs : List S) (v : V) (last : Poll (SocketResult S)) (l' : L)
        → length xs < fuel
        → IsLast last
        → Accepts listener (get v) xs last l'
        → serve_loop fuel v
          ≡ done (put (serve_all serve v xs) l', if closes last then ready tt else pending)
    unfolding serve_loop
    serve_loop-serve_all zero xs v last l' lt fin acc = absurd (omega arith)
    serve_loop-serve_all (suc fuel) [] v (ready (SocketResult.stream s)) l' lt fin acc = absurd fin
    serve_loop-serve_all (suc fuel) [] v (ready disconnect) l' lt fin acc = ground (arith, acc)
    serve_loop-serve_all (suc fuel) [] v pending l' lt fin acc = ground (arith, acc)
    serve_loop-serve_all (suc fuel) (x ∷ xs) v last l' lt fin (m, e, acc) =
        let v1 = serve (put v m) x in
        let first : serve_loop (suc fuel) v ≡ serve_loop fuel v1 = ground (arith, e) in
        let moved : v1 ≡ put (serve v x) m = serve-put v m x in
        let at : get v1 ≡ m = ap get moved ∙ get-put (serve v x) m in
        let rest =
          serve_loop-serve_all fuel xs v1 last l' (omega (arith, lt)) fin
            (subst (λ k. Accepts listener k xs last l') (sym at) acc) in
        let same : put (serve_all serve v1 xs) l' ≡ put (serve_all serve (serve v x) xs) l' =
          ap (λ w. put (serve_all serve w xs) l') moved
          ∙ ap (λ w. put w l') (serve_all-put xs (serve v x) m)
          ∙ put-put (serve_all serve (serve v x) xs) m l' in
        first ∙ rest ∙ ap (λ w. done (w, if closes last then ready tt else pending)) same
