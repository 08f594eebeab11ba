-- ===== src/Buffers/OwnedBuffer.antt =====
-- protosocket-connection/src/encoding.rs: OwnedBuffer.
use protosocket.Prelude.{
  ℕ, ◌+◌, ◌-◌, ◌||◌, if◌then◌else◌, leb, ◌==◌, List, [], ◌∷◌, length, drop, Option, none, some,
}
use protosocket.Reactor.{Buf}

pub record OwnedBuffer : Type 0 where
  pub buffer : List ℕ
  pub cursor : ℕ

unfoldable pub new : List ℕ → OwnedBuffer
new buffer = record { buffer = buffer; cursor = 0 }

unfoldable pub remaining : OwnedBuffer → ℕ
remaining b = length b.buffer - b.cursor

unfoldable pub chunk : OwnedBuffer → List ℕ
chunk b = drop b.cursor b.buffer

-- `none` is a panic.
unfoldable pub advance : OwnedBuffer → ℕ → Option OwnedBuffer
advance b cnt =
    if leb (b.cursor + cnt) (length b.buffer)
    then some (record b { cursor = b.cursor + cnt })
    else none

-- bytes' own `chunks_vectored`: the one chunk, if there is a slot for it and it is not empty.
unfoldable pub owned_buf : Buf OwnedBuffer
owned_buf = record {
  remaining = remaining;
  advance = λ b cnt. elim (advance b cnt) [ some b' ↦ b' | none ↦ b ];
  chunks_vectored = λ b slots. if slots == 0 || (remaining b == 0) then [] else chunk b ∷ [];
}
