-- ===== src/Rpc/CompletionReactor/Delivery.antt =====
-- Every response reaches the rpc that waits for it, and no other
-- (protosocket-rpc/src/client/reactor/completion_reactor.rs, on_inbound_message).
use protosocket.Prelude.{
  ℕ, ◌≡◌, ◌≢◌, inl, inr, refl, sym, ap, subst, ◌∙◌, Bool, true, false, if◌then◌else◌, ◌==◌, ==_iff,
  Bool-cases, List, [], ◌∷◌, ◌++◌, Option, none, some, arith, append-nil, append_assoc,
}
use protosocket.Prelude.Assoc.{lookup, remove, lookup-remove_self}
use protosocket.Rpc.Message.{Message, ProtosocketControlCode, normal, cancel, end}
use protosocket.Rpc.CompletionReactor.{
  Completion, unary, remote_streaming, address, delivered, RpcCompletionReactor, deregister,
  on_entry, on_code, on_inbound_message, do_nothing,
}
use protosocket.Rpc.CompletionReactor.Routing.{
  IsOwn, IsOwn-remove, received, due, on_all, Step, deregister-Step, deregister-other, entry-other,
  still, after, delivered_here,
}

-- The completion uses the channel.
abbrev pub Uses : ℕ → Option Completion → Type 0
Uses c o = (x : Completion) → o ≡ some x → address x ≡ c

-- What the rpc waits for after one message of its own, and what it gets of it.
abbrev next : (ℕ → Bool) → Option Completion → ProtosocketControlCode → Option Completion
next accepts (some (remote_streaming c)) normal =
    if accepts c then some (remote_streaming c) else none
next accepts _ _ = none

abbrev gets : {I : Type 0} → (ℕ → Bool) → Option Completion → ProtosocketControlCode → I → List I
gets accepts (some (unary c)) normal m = if accepts c then m ∷ [] else []
gets accepts (some (remote_streaming c)) normal m = if accepts c then m ∷ [] else []
gets accepts _ _ m = []

next-Uses :
    (accepts : ℕ → Bool) (c : ℕ) (o : Option Completion) (code : ProtosocketControlCode)
    → Uses c o
    → Uses c (next accepts o code)
next-Uses accepts c (some (remote_streaming ch)) normal uses x e = elim (Bool-cases (accepts ch)) [
  | inl there ↦ uses x (ground (arith, there, e))
  | inr shut ↦ absurd (ground (arith, shut, e))
]
next-Uses accepts c none normal uses x e = absurd (ground (arith, e))
next-Uses accepts c none cancel uses x e = absurd (ground (arith, e))
next-Uses accepts c none end uses x e = absurd (ground (arith, e))
next-Uses accepts c (some (unary ch)) normal uses x e = absurd (ground (arith, e))
next-Uses accepts c (some (unary ch)) cancel uses x e = absurd (ground (arith, e))
next-Uses accepts c (some (unary ch)) end uses x e = absurd (ground (arith, e))
next-Uses accepts c (some (remote_streaming ch)) cancel uses x e = absurd (ground (arith, e))
next-Uses accepts c (some (remote_streaming ch)) end uses x e = absurd (ground (arith, e))

module _ {I : Type 0} (accepts : ℕ → Bool) (inbound : Message I) (id : ℕ) (m : I)
    (ms : List I) where
  due_other :
      (o : Option Completion)
      → inbound.message_id m == id ≡ false
      → due accepts inbound id o (m ∷ ms) ≡ due accepts inbound id o ms
  due_other none e = refl
  due_other (some (unary c)) e = rw e refl
  due_other (some (remote_streaming c)) e = rw e refl

  due_own :
      (o : Option Completion) (code : ProtosocketControlCode)
      → inbound.message_id m == id ≡ true
      → inbound.control_code m ≡ code
      → due accepts inbound id o (m ∷ ms)
        ≡ gets accepts o code m ++ due accepts inbound id (next accepts o code) ms
  due_own none code e f = refl
  due_own (some (unary c)) normal e f = ground (arith, e, f)
  due_own (some (unary c)) cancel e f = ground (arith, e, f)
  due_own (some (unary c)) end e f = ground (arith, e, f)
  due_own (some (remote_streaming c)) normal e f = ground (arith, e, f)
  due_own (some (remote_streaming c)) cancel e f = ground (arith, e, f)
  due_own (some (remote_streaming c)) end e f = ground (arith, e, f)

module _ {H I O : Type 0} (accepts : ℕ → Bool) (inbound : Message I) (outbound : Message O) where
  abbrev Steps :
      RpcCompletionReactor H I
      → ℕ
      → ℕ
      → Option Completion
      → List I
      → RpcCompletionReactor H I
      → Type 0
  Steps r id c o new r' = Step accepts inbound outbound r id c o new r'

  other_step :
      (r : RpcCompletionReactor H I) (m : I) (id c : ℕ) (code : ProtosocketControlCode)
      → inbound.message_id m ≢ id
      → IsOwn r.rpc_registry id c
      → Steps r id c
          (lookup r.rpc_registry id)
          []
          (on_code accepts do_nothing inbound outbound r m code)
  unfolding on_code
  other_step r m id c normal ne own =
      entry-other accepts inbound outbound r m id c (inbound.message_id m)
        (lookup r.rpc_registry (inbound.message_id m)) ne
        (λ x e. own (inbound.message_id m) x (λ f. ne (sym f)) e)
  other_step r m id c cancel ne own =
      deregister-other accepts inbound outbound r id c (inbound.message_id m) ne
  other_step r m id c end ne own =
      deregister-other accepts inbound outbound r id c (inbound.message_id m) ne

  consumed :
      (r : RpcCompletionReactor H I) (id c : ℕ) (r' : RpcCompletionReactor H I) (new : List I)
      → r'.rpc_registry ≡ remove r.rpc_registry id
      → received c r'.effects ≡ received c r.effects ++ new
      → Steps r id c none new r'
  consumed r id c r' new e got = record {
    bound = ap (λ l. lookup l id) e ∙ lookup-remove_self r.rpc_registry id;
    got = got;
    own = λ h. subst (λ l. IsOwn l id c) (sym e) (IsOwn-remove r.rpc_registry id c id h);
  }

  entry_own :
      (r : RpcCompletionReactor H I) (m : I) (id c : ℕ) (o : Option Completion)
      → lookup r.rpc_registry id ≡ o
      → Uses c o
      → Steps r id c
          (next accepts o normal)
          (gets accepts o normal m)
          (on_entry accepts do_nothing inbound outbound r m id o)
  unfolding on_entry do_nothing
  entry_own r m id c none e uses =
      subst (λ o. Steps r id c o [] r) e (still accepts inbound outbound r id c)
  entry_own r m id c (some (unary ch)) e uses = elim (Bool-cases (accepts ch)) [
    | inl there ↦ rw there (
        consumed r id c _ (m ∷ []) refl (
          after accepts inbound outbound c r (delivered ch m ∷ []) (m ∷ []) (
            subst (λ x. received x (delivered ch m ∷ []) ≡ m ∷ []) (uses _ refl)
              (delivered_here ch m))))
    | inr shut ↦ rw shut (consumed r id c _ [] refl (sym (append-nil (received c r.effects))))
  ]
  entry_own r m id c (some (remote_streaming ch)) e uses = elim (Bool-cases (accepts ch)) [
    | inl there ↦ rw there (record {
      bound = e;
      got = after accepts inbound outbound c r (delivered ch m ∷ []) (m ∷ []) (
          subst (λ x. received x (delivered ch m ∷ []) ≡ m ∷ []) (uses _ refl)
            (delivered_here ch m));
      own = λ h. h;
    })
    | inr shut ↦ rw shut (deregister-Step accepts inbound outbound r id c)
  ]

  ended_own :
      (r : RpcCompletionReactor H I) (m : I) (id c : ℕ)
      → inbound.message_id m ≡ id
      → Steps r id c none [] (deregister r (inbound.message_id m))
  ended_own r m id c same =
      subst (λ i. Steps r i c none [] (deregister r (inbound.message_id m))) same
        (deregister-Step accepts inbound outbound r (inbound.message_id m) c)

  own_step :
      (r : RpcCompletionReactor H I) (m : I) (id c : ℕ) (o : Option Completion)
      (code : ProtosocketControlCode)
      → inbound.message_id m ≡ id
      → lookup r.rpc_registry id ≡ o
      → Uses c o
      → Steps r id c
          (next accepts o code)
          (gets accepts o code m)
          (on_code accepts do_nothing inbound outbound r m code)
  unfolding on_code
  own_step r m id c o normal same e uses =
      let j = inbound.message_id m in
      let here = ap (lookup r.rpc_registry) same ∙ e in
      subst
        (λ i.
          Steps r i c (next accepts o normal) (gets accepts o normal m)
            (on_entry accepts do_nothing inbound outbound r m j (lookup r.rpc_registry j)))
        same
        (subst
          (λ x.
            Steps r j c (next accepts o normal) (gets accepts o normal m)
              (on_entry accepts do_nothing inbound outbound r m j x))
          (sym here) (entry_own r m j c o here uses))
  own_step r m id c none cancel same e uses = ended_own r m id c same
  own_step r m id c (some (unary ch)) cancel same e uses = ended_own r m id c same
  own_step r m id c (some (remote_streaming ch)) cancel same e uses = ended_own r m id c same
  own_step r m id c none end same e uses = ended_own r m id c same
  own_step r m id c (some (unary ch)) end same e uses = ended_own r m id c same
  own_step r m id c (some (remote_streaming ch)) end same e uses = ended_own r m id c same

  -- Whatever messages come in, the channel of an rpc gets what is due to it and nothing else: a unary
  -- rpc the first message under its id, if it is a normal one; a streaming one the normal messages
  -- up to the first that cancels or ends it; a message under another id never. This is so for a
  -- client whose handler ignores messages that nobody waits for, and while no other rpc has the
  -- same channel.
  pub on_all-due :
      (ms : List I) (r : RpcCompletionReactor H I) (id c : ℕ) (o : Option Completion)
      → lookup r.rpc_registry id ≡ o
      → Uses c o
      → IsOwn r.rpc_registry id c
      → received c (on_all accepts inbound outbound r ms).effects
        ≡ received c r.effects ++ due accepts inbound id o ms
  unfolding on_inbound_message
  on_all-due [] r id c o e uses own =
      sym (append-nil (received c r.effects))
      ∙ ap (λ l. received c r.effects ++ l) (sym (nothing_due o))
    where
      nothing_due : (o : Option Completion) → due accepts inbound id o [] ≡ []
      nothing_due none = refl
      nothing_due (some x) = refl
  on_all-due (m ∷ ms) r id c o e uses own =
      let code = inbound.control_code m in
      let r' = on_code accepts do_nothing inbound outbound r m code in
      elim (Bool-cases (inbound.message_id m == id)) [
        | inl same ↦
            let step =
              own_step r m id c o code ((==_iff (inbound.message_id m) id).0 same) e uses in
            on_all-due ms r' id c (next accepts o code) step.bound (next-Uses accepts c o code uses)
              (step.own own)
            ∙ ap (λ l. l ++ due accepts inbound id (next accepts o code) ms) step.got
            ∙ append_assoc (received c r.effects) (gets accepts o code m)
                (due accepts inbound id (next accepts o code) ms)
            ∙ ap (λ l. received c r.effects ++ l)
                (sym (due_own accepts inbound id m ms o code same refl))
        | inr other ↦
            let step = other_step r m id c code (λ f. ground (arith, other, f)) own in
            on_all-due ms r' id c o (step.bound ∙ e) uses (step.own own)
            ∙ ap (λ l. l ++ due accepts inbound id o ms)
                (step.got ∙ append-nil (received c r.effects))
            ∙ ap (λ l. received c r.effects ++ l) (sym (due_other accepts inbound id m ms o other))
      ]
