-- ===== src/Rpc/Alive.antt =====
-- The shared flag of a connection, Arc<AtomicBool> in protosocket-rpc/src/client: its reactor
-- clears the flag when it is dropped, and every clone of the client reads it. A flag has an address
-- in a store.
use protosocket.Prelude.{ℕ, ◌+◌, ◌<◌, ◌≡◌, refl, ◌==◌, ==_refl, if◌then◌else◌, Bool, arith}

pub record Flags : Type 0 where
  pub next : ℕ
  pub value : ℕ → Bool

-- `load`
abbrev pub load : Flags → ℕ → Bool
load flags flag = flags.value flag

-- `store`
unfoldable pub store : Flags → ℕ → Bool → Flags
store flags flag b = record flags {
  value = λ other. if other == flag then b else flags.value other;
}

-- `Arc::new` of `AtomicBool::new`: an address that no flag has.
unfoldable pub new_flag : Flags → Bool → ℕ × Flags
unfolding store
new_flag flags b = (flags.next, record (store flags flags.next b) { next = flags.next + 1 })

module _ (flags : Flags) where
  pub load-store : (flag : ℕ) (b : Bool) → load (store flags flag b) flag ≡ b
  unfolding store
  load-store flag b = rw (==_refl flag) refl

  pub load-store_other :
      (flag other : ℕ) (b : Bool)
      → other < flag
      → load (store flags flag b) other ≡ load flags other
  unfolding store
  load-store_other flag other b h = ground (arith, h)
