-- ===== src/Reactor.antt =====
-- protosocket-connection/src/message_reactor.rs: what a connection tells its reactor, and asks of it.
use protosocket.Prelude.{ℕ, Bool, List, Option, Poll}
use protosocket.Codec.{ReactorStatus, IoError}
use protosocket.SendBudget.{SendBudget}

-- `MessageReactor`, of state `R`: inbound messages `I`, outbound messages `O`, and logical ones `L`.
pub record MessageReactor (R D B I O L : Type 0) : Type 0 where
  pub on_inbound_message : R → I → R × ReactorStatus
  pub poll : R → R × Bool  -- whether it is a break
  pub on_outbound_message : R → L → R × O
  pub poll_outbound_many : R → SendBudget D B → R × SendBudget D B × Poll (Option (Unit {0}))

-- What tokio's `AsyncRead` and `AsyncWrite` answer: `finished` holds the bytes read, the count of
-- bytes written, or that the flush is done.
pub data Io (A : Type 0) : Type 0 where
  finished : A → Io A
  failed : IoError → Io A
  waiting : Io A

-- A stream of state `S`. A read is given the room that there is for bytes, a write the slices.
pub record Stream (S : Type 0) : Type 0 where
  pub poll_read : S → ℕ → S × Io (List ℕ)
  pub poll_write_vectored : S → List (List ℕ) → S × Io ℕ
  pub poll_flush : S → S × Io (Unit {0})

-- The part of bytes' `Buf` that a connection uses, on buffers `B`.
pub record Buf (B : Type 0) : Type 0 where
  pub remaining : B → ℕ
  pub advance : B → ℕ → B
  pub chunks_vectored : B → ℕ → List (List ℕ)  -- at most as many slices as the number says
