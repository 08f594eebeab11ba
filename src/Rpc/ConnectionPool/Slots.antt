-- ===== src/Rpc/ConnectionPool/Slots.antt =====
-- What the slots of a pool of clients go through (protosocket-rpc/src/client/connection_pool.rs).
use protosocket.Prelude.{
  done, ℕ, ◌≡◌, ◌≢◌, refl, ap, ◌∙◌, Bool, true, if◌then◌else◌, get_elem?, some, arith, get_elem?-lt,
  get_elem?-set_self, get_elem?-set_ne, length-set,
}
use protosocket.Rpc.ConnectionPool.{
  ConnectionState, connecting, connected, disconnected, ConnectionPool, put, reconcile_state,
  reconcile_client_slot,
}

module _ {C : Type 0} (is_alive : C → Bool) where
  -- The other slots are as they were.
  abbrev pub Elsewhere : ConnectionPool C → ℕ → ConnectionPool C → Type 0
  Elsewhere p slot p' = (k : ℕ) → slot ≢ k → get_elem? p'.connections k ≡ get_elem? p.connections k

  -- The client that a waiter goes on with: the slot's own, if that is alive, and else its own.
  abbrev pub favored : ConnectionState C → C → C
  favored (connected there) c = if is_alive there then there else c
  favored _ c = c

  reconciled :
      (state : ConnectionState C) (c : C)
      → reconcile_state is_alive state c ≡ (favored state c, connected (favored state c))
  unfolding reconcile_state
  reconciled (connecting n) c = refl
  reconciled (connected there) c = ground arith
  reconciled disconnected c = refl

  reconcile_favored :
      (p : ConnectionPool C) (slot : ℕ) (state : ConnectionState C) (c : C)
      → get_elem? p.connections slot ≡ some state
      → reconcile_client_slot is_alive p slot c
        ≡ done (favored state c, put p slot (connected (favored state c)))
  unfolding reconcile_client_slot
  reconcile_favored p slot state c e = ground (arith, e, reconciled state c)

  -- Waiters of one slot that reconcile one after the other, while the first one's client is alive, all
  -- get that client, and the slot holds it: the first one favors a live client that is there already.
  pub reconcile-shared :
      (p : ConnectionPool C) (slot : ℕ) (state : ConnectionState C) (c d : C)
      → get_elem? p.connections slot ≡ some state
      → is_alive (favored state c) ≡ true
      → (p' : ConnectionPool C) × (reconcile_client_slot is_alive p slot c
          ≡ done (favored state c, p'))
        × (get_elem? p'.connections slot ≡ some (connected (favored state c)))
        × Elsewhere p slot p'
        × (p'' : ConnectionPool C) × (reconcile_client_slot is_alive p' slot d
            ≡ done (favored state c, p''))
        × (get_elem? p''.connections slot ≡ some (connected (favored state c)))
  reconcile-shared p slot state c d e alive =
      let there = favored state c in
      let p' = put p slot (connected there) in
      let lt = get_elem?-lt p.connections slot e in
      let held = get_elem?-set_self p.connections slot (connected there) lt in
      let same : favored (connected there) d ≡ there = rw alive refl in
      (
        p',
        reconcile_favored p slot state c e,
        held,
        (λ k ne. get_elem?-set_ne p.connections _ ne),
        put p' slot (connected there),
        reconcile_favored p' slot (connected there) d held
            ∙ ap (λ x. done (x, put p' slot (connected x))) same,
        get_elem?-set_self p'.connections slot (connected there)
            (omega (arith, lt, length-set p.connections slot (connected there))),
      )
