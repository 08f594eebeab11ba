-- ===== src/Buffers/Reusable.antt =====
-- protosocket-connection/src/pooled_encoder.rs: Reusable.
use protosocket.Prelude.{
  ℕ, ◌+◌, ◌-◌, Bool, not, ◌||◌, if◌then◌else◌, leb, ◌==◌, List, [], ◌∷◌, length, drop, Option, none,
  some,
}
use protosocket.Reactor.{Buf}

pub record Reusable : Type 0 where
  pub inner : List ℕ
  pub cursor : ℕ

unfoldable pub new : List ℕ → Reusable
new buffer = record { inner = buffer; cursor = 0 }

unfoldable pub remaining : Reusable → ℕ
remaining b = length b.inner - b.cursor

unfoldable pub chunk : Reusable → List ℕ
chunk b = drop b.cursor b.inner

-- `none` is a panic.
unfoldable pub advance : Reusable → ℕ → Option Reusable
advance b cnt =
    if leb (b.cursor + cnt) (length b.inner)
    then some (record b { cursor = b.cursor + cnt })
    else none

unfoldable pub chunks_vectored : Reusable → ℕ → List (List ℕ)
unfolding chunk
chunks_vectored b slots = if slots == 0 || (b.cursor == length b.inner) then [] else chunk b ∷ []

unfoldable pub has_remaining : Reusable → Bool
has_remaining b = not (length b.inner == b.cursor)

-- The buffers as a connection sees them. It advances only within what remains, where there is no
-- panic.
unfoldable pub reusable_buf : Buf Reusable
reusable_buf = record {
  remaining = remaining;
  advance = λ b cnt. elim (advance b cnt) [ some b' ↦ b' | none ↦ b ];
  chunks_vectored = chunks_vectored;
}
