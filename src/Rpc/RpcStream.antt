-- ===== src/Rpc/RpcStream.antt =====
-- protosocket-rpc/src/server/rpc_stream.rs: one rpc of a server as a stream of events.
pub mod Protocol
use protosocket.Prelude.{
  Poll, ready, pending, ℕ, Bool, true, false, if◌then◌else◌, List, [], ◌∷◌, ◌++◌, length, get_elem?,
  set, Option, none, some,
}

-- What was done with an `AtomicWaker`.
pub data WakerCall : Type 0 where
  register wake : WakerCall

-- The cell that a stream and its abort handle share. The calls of the waker are kept, latest first.
pub record Shared : Type 0 where
  pub aborted : Bool
  pub waker : List WakerCall

-- The cells, by address.
abbrev pub Heap : Type 0
Heap = List Shared

pub data RpcStreamKind (F S : Type 0) : Type 0 where
  unary : F → RpcStreamKind F S
  streaming : S → RpcStreamKind F S
  done : RpcStreamKind F S

pub record RpcStream (F S : Type 0) : Type 0 where
  pub id : ℕ
  pub shared : ℕ  -- the address of `aborted` and `waker`
  pub kind : RpcStreamKind F S

pub data RpcStreamEvent (T : Type 0) : Type 0 where
  item : T → RpcStreamEvent T
  complete : T → RpcStreamEvent T
  finished : RpcStreamEvent T
  cancelled : RpcStreamEvent T

unfoldable pub is_terminal : {T : Type 0} → RpcStreamEvent T → Bool
is_terminal (item t) = false
is_terminal (complete t) = true
is_terminal finished = true
is_terminal cancelled = true

-- The futures and streams of the service: what a poll of them gives.
pub record Service (F S T : Type 0) : Type 0 where
  pub poll_unary : F → F × Poll T
  pub poll_stream : S → S × Poll (Option T)

module _ {F S : Type 0} where
  -- The stream, and its `RpcAbortHandle`: the address of the new cell.
  unfoldable pub new : Heap → ℕ → RpcStreamKind F S → Heap × RpcStream F S × ℕ
  new h id kind = (
    h ++ record { aborted = false; waker = [] } ∷ [],
    record { id = id; shared = length h; kind = kind },
    length h,
  )

  unfoldable pub new_unary : Heap → ℕ → F → Heap × RpcStream F S × ℕ
  unfolding new
  new_unary h id completion = new h id (unary completion)

  unfoldable pub new_streaming : Heap → ℕ → S → Heap × RpcStream F S × ℕ
  unfolding new
  new_streaming h id stream = new h id (streaming stream)

abbrev pub cell : Heap → ℕ → Shared
cell h a = elim (get_elem? h a) [ some s ↦ s | none ↦ record { aborted = false; waker = [] } ]

-- `RpcAbortHandle::mark_aborted`
unfoldable pub mark_aborted : Heap → ℕ → Heap
mark_aborted h a = set h a (record { aborted = true; waker = wake ∷ (cell h a).waker })

abbrev pub register_waker : Heap → ℕ → Heap
register_waker h a = set h a (record (cell h a) { waker = register ∷ (cell h a).waker })

module _ {F S T : Type 0} (service : Service F S T) where
  abbrev pub Event : Type 0
  Event = ℕ × RpcStreamEvent T

  -- The stream with another kind, and what its poll gives.
  abbrev pub becomes :
      RpcStream F S → RpcStreamKind F S → Poll (Option Event) → RpcStream F S × Poll (Option Event)
  becomes r kind p = (record r { kind = kind }, p)

  unfoldable pub poll_aborted :
      RpcStream F S → RpcStreamKind F S → RpcStream F S × Poll (Option Event)
  poll_aborted r done = (r, ready none)
  poll_aborted r _ = becomes r done (ready (some (r.id, cancelled)))

  unfoldable pub on_unary : RpcStream F S → F → Poll T → RpcStream F S × Poll (Option Event)
  on_unary r completion (ready response) = becomes r done (ready (some (r.id, complete response)))
  on_unary r completion pending = becomes r (unary completion) pending

  unfoldable pub on_streaming :
      RpcStream F S → S → Poll (Option T) → RpcStream F S × Poll (Option Event)
  on_streaming r stream (ready (some t)) =
      becomes r (streaming stream) (ready (some (r.id, item t)))
  on_streaming r stream (ready none) = becomes r done (ready (some (r.id, finished)))
  on_streaming r stream pending = becomes r (streaming stream) pending

  unfoldable pub poll_kind : RpcStream F S → RpcStreamKind F S → RpcStream F S × Poll (Option Event)
  unfolding on_unary on_streaming
  poll_kind r (unary completion) = let (f, p) = service.poll_unary completion in on_unary r f p
  poll_kind r (streaming stream) = let (s, p) = service.poll_stream stream in on_streaming r s p
  poll_kind r done = (r, ready none)

  unfoldable pub poll_next : Heap → RpcStream F S → Heap × RpcStream F S × Poll (Option Event)
  unfolding poll_aborted poll_kind
  poll_next h r =
      let (r', p) =
        if (cell (register_waker h r.shared) r.shared).aborted
        then poll_aborted r r.kind
        else poll_kind r r.kind in
      (register_waker h r.shared, r', p)
