-- ===== src/Spillway/Shared.antt =====
-- spillway/src/shared.rs: the state that the senders and the receiver of a channel share.
use protosocket.Prelude.{
  ℕ, zero, suc, ◌+◌, ◌%◌, Bool, true, false, not, if◌then◌else◌, ltb, ◌==◌, List, [], ◌∷◌, length,
  get_elem?, set, replicate, Option, none, some,
}
use protosocket.Prelude.Word.{add64, sub64, u64_max}
use protosocket.Spillway.Chute
use protosocket.Spillway.Chute.{Chute}

-- The calls that the code makes on `futures::task::AtomicWaker`, a third-party type.
pub data WakerCall : Type 0 where
  register wake : WakerCall

pub record Shared {ℓ} (T : Type ℓ) : Type ℓ where
  pub chutes : List (Chute T)
  pub waker : List WakerCall  -- the latest call first
  pub senders : ℕ  -- AtomicUsize
  pub chute_clock : ℕ  -- AtomicUsize
  pub channel_size : ℕ  -- AtomicU64
  pub capacity : ℕ  -- u64
  pub dead : Bool

-- `Error<T>`, with the values handed back.
pub data Error {ℓ} (A : Type ℓ) : Type ℓ where
  full : A → Error A
  closed : A → Error A

-- What a send returns beside the state. `Ok(())` is an inner `none`; the outer one is the panic of
-- an index out of range.
abbrev pub Sent {ℓ κ} : Type κ → Type ℓ → Type (ℓ ⊔ κ)
Sent A T = Option (Option (Error A) × Shared T)

module _ {ℓ} {T : Type ℓ} where
  unfoldable pub new : ℕ → ℕ → Shared T
  unfolding Chute.default
  new concurrency capacity = record {
    chutes = replicate concurrency Chute.default;
    waker = [];
    senders = 0;
    chute_clock = 0;
    channel_size = 0;
    capacity = capacity;
    dead = false;
  }

  unfoldable pub add_sender : Shared T → Shared T
  add_sender s = record s { senders = add64 s.senders 1 }

  -- The count before the call is returned.
  unfoldable pub drop_sender : Shared T → ℕ × Shared T
  drop_sender s = (s.senders, record s { senders = sub64 s.senders 1 })

  -- With no chute at all `%` panics: `none`.
  unfoldable pub choose_chute : Shared T → Option (ℕ × Shared T)
  choose_chute s =
      if length s.chutes == 0
      then none
      else some (s.chute_clock % length s.chutes, record s { chute_clock = add64 s.chute_clock 1 })

  unfoldable pub notify : Shared T → Shared T
  notify s = record s { waker = wake ∷ s.waker }

  -- `self.chutes[chute]` of a chute that is not there panics: `none`.
  unfoldable pub send_many_infallible : Shared T → ℕ → List T → Option (Shared T)
  unfolding Chute.send_many notify
  send_many_infallible s chute values = elim (get_elem? s.chutes chute) [
    | none ↦ none
    | some c ↦
        let (c', woke) = Chute.send_many c values in
        let s' = record s { chutes = set s.chutes chute c' } in
        some (if woke then notify s' else s')
  ]

  -- The sends into a bounded channel take their room first, and give it back if it is not there.
  unfoldable pub reserve : Shared T → ℕ → Bool × Shared T
  reserve s count =
      if s.capacity == u64_max
      then (true, s)
      else let prev = s.channel_size in
        let s' = record s { channel_size = add64 prev count } in
        if ltb s.capacity (add64 prev count)
        then (false, record s' { channel_size = sub64 s'.channel_size count })
        else (true, s')

  abbrev pub deliver {κ} : {A : Type κ} → A → ℕ → List T → Bool × Shared T → Sent A T
  deliver values chute items (false, s) = some (some (full values), s)
  deliver values chute items (true, s) = elim (send_many_infallible s chute items) [
    | none ↦ none
    | some s' ↦ some (none, s')
  ]

  unfoldable pub send : Shared T → ℕ → T → Sent T T
  unfolding reserve send_many_infallible
  send s chute value =
      if s.dead
      then some (some (closed value), s)
      else deliver value chute (value ∷ []) (reserve s 1)

  unfoldable pub send_many : Shared T → ℕ → List T → Sent (List T) T
  unfolding reserve send_many_infallible
  send_many s chute values =
      if s.dead
      then some (some (closed values), s)
      else deliver values chute values (reserve s (length values))

  -- `!self.chutes[i].clean()`, with `false` for a chute that is not there.
  abbrev pub is_dirty : List (Chute T) → ℕ → Bool
  is_dirty chutes i = elim (get_elem? chutes i) [ none ↦ false | some c ↦ not c.clean ]

  -- The rounds `i..len` of the loop, `left` of them.
  unfoldable pub find_dirty : List (Chute T) → ℕ → ℕ → ℕ → Option ℕ
  find_dirty chutes offset i zero = none
  find_dirty chutes offset i (suc left) =
      let at : ℕ = (offset + i) % length chutes in
      let rest = find_dirty chutes offset (i + 1) left in
      if is_dirty chutes at then some at else rest

  unfoldable pub race_find_dirty : Shared T → ℕ → Option ℕ
  unfolding find_dirty
  race_find_dirty s starting_wrap_offset =
      find_dirty s.chutes starting_wrap_offset 0 (length s.chutes)
