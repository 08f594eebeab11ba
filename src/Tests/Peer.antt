-- ===== src/Tests/Peer.antt =====
-- The writing half of a stream for the tests of a connection.
use protosocket.Prelude.{ℕ, min, refl, List, [], ◌∷◌, ◌++◌, length, take, arith}
use protosocket.Reactor.{Stream, Io, finished, waiting}
use protosocket.Connection.Receive.Totality.{IsFinite}
use protosocket.Connection.Send.Wire.{flat}
use protosocket.Connection.Send.Attempts.{Wrote, IsWritable}
use protosocket.Connection.Driving.{IsDuplex}

-- A peer that has some bytes, and takes at most so many more in each write.
abbrev pub Peer : Type 0
Peer = List ℕ × List ℕ

abbrev peer_write : Peer → List (List ℕ) → Peer × Io ℕ
peer_write (got, []) slices = ((got, []), waiting)
peer_write (got, q ∷ qs) slices = (
  (got ++ take (min q (length (flat slices))) (flat slices), qs),
  finished (min q (length (flat slices))),
)

abbrev pub peer : Stream Peer
peer = record {
  poll_read = λ s room. (s, waiting);
  poll_write_vectored = peer_write;
  poll_flush = λ s. (s, finished tt);
}

abbrev pub got : Peer → List ℕ
got s = s.0

abbrev pub quotas_left : Peer → ℕ
quotas_left s = length s.1

pub peer-IsWritable : IsWritable peer got quotas_left
peer-IsWritable = record { writes = wrote; flushes = λ s. refl }
  where
    wrote :
        (s : Peer) (slices : List (List ℕ)) → Wrote got quotas_left s slices (peer_write s slices)
    wrote (g, []) slices = refl
    wrote (g, q ∷ qs) slices = (omega arith, refl, λ _. omega arith)

pub peer-IsFinite : IsFinite peer (λ s. 0)
peer-IsFinite = record {
  fits = λ s s' room bytes e. absurd (ground (arith, e));
  reads = λ s s' room bytes e. absurd (ground (arith, e));
  interrupts = λ s s' room e. absurd (ground (arith, e));
}

pub peer-IsDuplex : IsDuplex peer got quotas_left
peer-IsDuplex = record { silent = λ s room. refl; fewer = λ s room. omega arith }
