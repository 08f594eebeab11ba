-- ===== src/Rpc/CompletionReactor/Routing.antt =====
-- Which responses reach which rpc (protosocket-rpc/src/client/reactor/completion_reactor.rs).
use protosocket.Prelude.{
  ℕ, ◌≡◌, ◌≢◌, inl, inr, refl, sym, ap, ◌∙◌, Bool, if◌then◌else◌, ◌==◌, ==_refl, Bool-cases, List,
  [], ◌∷◌, ◌++◌, Option, none, some, arith, append-nil,
}
use protosocket.Prelude.Assoc.{
  lookup, remove, lookup-remove_self, lookup-remove_ne, lookup-remove-some,
}
use protosocket.Rpc.Message.{Message, normal, cancel, end}
use protosocket.Rpc.CompletionReactor.{
  CompletionRegistry, Completion, unary, remote_streaming, address, Effect, delivered, dropped,
  RpcCompletionReactor, drop_end, deregister, on_entry, on_inbound_message, do_nothing,
}

-- The channel is that of no other rpc.
abbrev pub IsOwn : CompletionRegistry → ℕ → ℕ → Type 0
IsOwn kvs id c =
    (k : ℕ) (other : Completion) → id ≢ k → lookup kvs k ≡ some other → address other ≢ c

pub IsOwn-remove :
    (kvs : CompletionRegistry) (id c j : ℕ) → IsOwn kvs id c → IsOwn (remove kvs j) id c
IsOwn-remove kvs id c j own k other ne e = own k other ne (lookup-remove-some kvs j k other e)

-- The messages that went into a channel.
abbrev pub received : {I : Type 0} → ℕ → List (Effect I) → List I
received c [] = []
received c (delivered c' m ∷ es) = let rest = received c es in if c == c' then m ∷ rest else rest
received c (dropped c' ∷ es) = received c es

pub received-append :
    {I : Type 0} (c : ℕ) (xs ys : List (Effect I))
    → received c (xs ++ ys) ≡ received c xs ++ received c ys
received-append c [] ys = refl
received-append c (delivered c' m ∷ es) ys = ground (arith, received-append c es ys)
received-append c (dropped c' ∷ es) ys = received-append c es ys

module _ {I : Type 0} where
  nothing_received : (c : ℕ) (o : Option Completion) → received {I = I} c (drop_end o) ≡ []
  nothing_received c none = refl
  nothing_received c (some x) = refl

  delivered_elsewhere : (c c' : ℕ) (m : I) → c' ≢ c → received c (delivered c' m ∷ []) ≡ []
  delivered_elsewhere c c' m ne = ground (arith, ne)

  pub delivered_here : (c : ℕ) (m : I) → received c (delivered c m ∷ []) ≡ m ∷ []
  delivered_here c m = ground (arith, ==_refl c)

module _ {I : Type 0} (accepts : ℕ → Bool) (inbound : Message I) where
  -- What an rpc under `id` is to get of the messages that come in: nothing if it is not registered; a
  -- unary one the first message with its id; a streaming one those up to a cancel or an end. A
  -- message that only cancels or ends is not handed on.
  abbrev pub due : ℕ → Option Completion → List I → List I
  due id none ms = []
  due id (some c) [] = []
  due id (some (unary c)) (m ∷ ms) =
      let later = due id (some (unary c)) ms in
      if inbound.message_id m == id
      then elim (inbound.control_code m) [
        | normal ↦ if accepts c then m ∷ [] else []
        | cancel ↦ []
        | end ↦ []
      ]
      else later
  due id (some (remote_streaming c)) (m ∷ ms) =
      let later = due id (some (remote_streaming c)) ms in
      if inbound.message_id m == id
      then elim (inbound.control_code m) [
        | normal ↦ if accepts c then m ∷ later else []
        | cancel ↦ []
        | end ↦ []
      ]
      else later

module _ {H I O : Type 0} (accepts : ℕ → Bool) (inbound : Message I) (outbound : Message O) where
  abbrev pub on_all : RpcCompletionReactor H I → List I → RpcCompletionReactor H I
  on_all r [] = r
  on_all r (m ∷ ms) = on_all (on_inbound_message accepts do_nothing inbound outbound r m).0 ms

  pub after :
      (c : ℕ) (r : RpcCompletionReactor H I) (es : List (Effect I)) (ms : List I)
      → received c es ≡ ms
      → received c (r.effects ++ es) ≡ received c r.effects ++ ms
  after c r es ms e = received-append c r.effects es ∙ ap (λ l. received c r.effects ++ l) e

  -- What a message leaves of the registry and adds to a channel.
  pub record Step (r : RpcCompletionReactor H I) (id c : ℕ) (o : Option Completion) (new : List I)
      (r' : RpcCompletionReactor H I) : Type 0 where
    pub bound : lookup r'.rpc_registry id ≡ o
    pub got : received c r'.effects ≡ received c r.effects ++ new
    pub own : IsOwn r.rpc_registry id c → IsOwn r'.rpc_registry id c

  pub deregister-Step :
      (r : RpcCompletionReactor H I) (id c : ℕ) → Step r id c none [] (deregister r id)
  unfolding deregister
  deregister-Step r id c = record {
    bound = lookup-remove_self r.rpc_registry id;
    got =
        after c r (drop_end (lookup r.rpc_registry id)) []
          (nothing_received c (lookup r.rpc_registry id));
    own = IsOwn-remove r.rpc_registry id c id;
  }

  pub deregister-other :
      (r : RpcCompletionReactor H I) (id c j : ℕ)
      → j ≢ id
      → Step r id c (lookup r.rpc_registry id) [] (deregister r j)
  unfolding deregister
  deregister-other r id c j ne = record {
    bound = lookup-remove_ne r.rpc_registry j id ne;
    got =
        after c r (drop_end (lookup r.rpc_registry j)) []
          (nothing_received c (lookup r.rpc_registry j));
    own = IsOwn-remove r.rpc_registry id c j;
  }

  pub still :
      (r : RpcCompletionReactor H I) (id c : ℕ) → Step r id c (lookup r.rpc_registry id) [] r
  still r id c = record {
    bound = refl;
    got = sym (append-nil (received c r.effects));
    own = λ h. h;
  }

  -- A message for another rpc changes nothing for this one.
  pub entry-other :
      (r : RpcCompletionReactor H I) (m : I) (id c j : ℕ) (o : Option Completion)
      → j ≢ id
      → ((x : Completion) → o ≡ some x → address x ≢ c)
      → Step r id c
          (lookup r.rpc_registry id)
          []
          (on_entry accepts do_nothing inbound outbound r m j o)
  unfolding on_entry do_nothing
  entry-other r m id c j none ne apart = still r id c
  entry-other r m id c j (some (unary ch)) ne apart = elim (Bool-cases (accepts ch)) [
    | inl there ↦ rw there (record {
      bound = lookup-remove_ne r.rpc_registry j id ne;
      got = after c r (delivered ch m ∷ []) [] (delivered_elsewhere c ch m (apart _ refl));
      own = IsOwn-remove r.rpc_registry id c j;
    })
    | inr shut ↦ rw shut (record {
      bound = lookup-remove_ne r.rpc_registry j id ne;
      got = sym (append-nil (received c r.effects));
      own = IsOwn-remove r.rpc_registry id c j;
    })
  ]
  entry-other r m id c j (some (remote_streaming ch)) ne apart = elim (Bool-cases (accepts ch)) [
    | inl there ↦ rw there (record {
      bound = refl;
      got = after c r (delivered ch m ∷ []) [] (delivered_elsewhere c ch m (apart _ refl));
      own = λ h. h;
    })
    | inr shut ↦ rw shut (deregister-other r id c j ne)
  ]
