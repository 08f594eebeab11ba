-- ===== src/Level/Names.antt =====
-- The names of a runtime's threads (level-runtime/src/builder.rs).
use protosocket.Prelude.{
  ℕ, zero, suc, ◌+◌, ◌/◌, ◌%◌, ◌≤◌, ◌<◌, ◌≡◌, ◌⊎◌, inl, inr, refl, sym, ap, subst, ◌∙◌, true, ◌||◌,
  ltb, leb, ltb→lt, ltb→le, lt→ltb, Bool-cases, List, [], ◌∷◌, ◌++◌, length, get_elem?, take, none,
  some, arith, length-append, length-take, get_elem?_below, get_elem?-lt, take_all,
}
use mathlib.Core.Option.{some_inj}
use protosocket.Prelude.Word.{add64}
use protosocket.Level.Builder.{
  ThreadName, Builder, digits, two_digits, is_char_boundary, truncate, thread_name_prefix,
  next_name, thread_names,
}

-- The tens and the ones.
abbrev pub decimal : ℕ → List ℕ
decimal i = (48 + i / 10) ∷ (48 + i % 10) ∷ []

two_digits-eq-decimal : (i : ℕ) → i < 100 → two_digits i ≡ decimal i
unfolding two_digits digits
two_digits-eq-decimal i h = elim (Bool-cases (ltb i 10)) [
  | inl e ↦ ground (arith, e)
  | inr e ↦ let f : ltb (i / 10) 10 ≡ true = lt→ltb (i / 10) 10 (omega arith) in rw (e, f) refl
]

-- The names that `n` threads get when the counter stands at `i`.
get_elem?-thread_names :
    (t : ThreadName) (n j : ℕ)
    → t.name_i + n ≤ 100
    → j < n
    → get_elem? (thread_names t n).0 j ≡ some (t.prefix ++ 45 ∷ decimal (t.name_i + j))
unfolding thread_names next_name
get_elem?-thread_names t zero j h lt = absurd (omega arith)
get_elem?-thread_names t (suc n) zero h lt =
    ground (arith, two_digits-eq-decimal t.name_i (omega (arith, h)))
get_elem?-thread_names t (suc n) (suc j) h lt =
    let t' : ThreadName = record t { name_i = add64 t.name_i 1 } in
    get_elem?-thread_names t' n j (omega (arith, h)) (omega (arith, lt))
    ∙ ap (λ (i : ℕ). some (t.prefix ++ 45 ∷ decimal i))
        (let e : add64 t.name_i 1 + j ≡ t.name_i + suc j = omega (arith, h) in e)

length-thread_names : (t : ThreadName) (n : ℕ) → length (thread_names t n).0 ≡ n
unfolding thread_names next_name
length-thread_names t zero = refl
length-thread_names t (suc n) = ap suc (length-thread_names (next_name t).1 n)

append_inj : (p q r : List ℕ) → p ++ q ≡ p ++ r → q ≡ r
append_inj [] q r e = e
append_inj (x ∷ p) q r e = append_inj p q r (cc)

decimal_inj : (i k : ℕ) → decimal i ≡ decimal k → i ≡ k
decimal_inj i k e =
    let tens : 48 + i / 10 ≡ 48 + k / 10 = cc in
    let ones : 48 + i % 10 ≡ 48 + k % 10 = cc in omega (arith, tens, ones)

pub record Names (short : List ℕ) (workers : ℕ) (names : List (List ℕ)) : Type 0 where
  pub each : length names ≡ workers
  pub begins :
      (j : ℕ) (name : List ℕ)
      → get_elem? names j ≡ some name
      → (rest : List ℕ) × (name ≡ short ++ rest) × (length name ≤ 15)
  pub distinct :
      (j k : ℕ) (name : List ℕ)
      → get_elem? names j ≡ some name
      → get_elem? names k ≡ some name
      → j ≡ k

-- What `thread_name_prefix` makes of a name: it panics, with a byte in place 12 that continues a
-- character, or the threads have their names.
abbrev pub Named : Builder → List ℕ → Type 0
Named b name =
    ((byte : ℕ) × (get_elem? name 12 ≡ some byte)
      × (128 ≤ byte)
      × (byte < 192)
      × (thread_name_prefix b name ≡ none))
    ⊎ ((b' : Builder) × (thread_name_prefix b name ≡ some b')
        × (b'.worker_threads ≡ b.worker_threads)
        × Names (take 12 name) b'.worker_threads (thread_names b'.thread_name b'.worker_threads).0)

name_at :
    (short : List ℕ) (n : ℕ)
    → n ≤ 100
    → (j : ℕ) (name : List ℕ)
    → get_elem? (thread_names (record { prefix = short; name_i = 0 }) n).0 j ≡ some name
    → (j < n) × (name ≡ short ++ 45 ∷ decimal (0 + j))
name_at short n few j name e =
    let t : ThreadName = record { prefix = short; name_i = 0 } in
    let lt : j < n =
      subst (λ m. j < m) (length-thread_names t n) (get_elem?-lt (thread_names t n).0 j e) in
    (lt, some_inj.0 (sym e ∙ get_elem?-thread_names t n j (omega (arith, few)) lt))

thread_names-Names :
    (short : List ℕ) (n : ℕ)
    → length short ≤ 12
    → n ≤ 100
    → Names short n (thread_names (record { prefix = short; name_i = 0 }) n).0
thread_names-Names short n h few =
    let t : ThreadName = record { prefix = short; name_i = 0 } in
    let at = name_at short n few in
    record {
      each = length-thread_names t n;
      begins = λ j name e. (
        45 ∷ decimal (0 + j),
        (at j name e).1,
        (let (_, same) = at j name e in
            omega (arith, ap length same, length-append short (45 ∷ decimal (0 + j)), h)),
      );
      distinct = λ j k name ej ek.
          (let rests : 45 ∷ decimal (0 + j) ≡ 45 ∷ decimal (0 + k) =
              append_inj short (45 ∷ decimal (0 + j)) (45 ∷ decimal (0 + k))
                (sym (at j name ej).1 ∙ (at k name ek).1) in
            let same : 0 + j ≡ 0 + k = decimal_inj (0 + j) (0 + k) (cc) in omega (arith, same));
    }

-- A prefix of more than 12 bytes is cut to 12, with a panic if that is within a character. Otherwise
-- the threads of a runtime with at most 100 workers get names of at most 15 bytes that begin with
-- what is left of the prefix, one each, and no two the same.
pub thread_name_prefix-Named : (b : Builder) (name : List ℕ) → b.worker_threads ≤ 100 → Named b name
unfolding thread_name_prefix truncate is_char_boundary
thread_name_prefix-Named b name few = elim (Bool-cases (ltb 12 (length name))) [
  | inr e ↦
      let fits : length name ≤ 12 = ltb→le 12 (length name) e in
      inr (
        record b { thread_name = record { prefix = name; name_i = 0 } },
        ground (arith, e),
        refl,
        subst
            (λ short.
              Names short b.worker_threads
                (thread_names (record { prefix = name; name_i = 0 }) b.worker_threads).0)
            (sym (take_all 12 name fits)) (thread_names-Names name b.worker_threads fits few),
      )
  | inl e ↦
      let long : 12 < length name = ltb→lt 12 (length name) e in
      let (byte, at) = get_elem?_below name 12 long in
      let le : leb 12 (length name) ≡ true = ground (arith, long) in
      elim (Bool-cases (ltb byte 128 || leb 192 byte)) [
        | inl boundary ↦ inr (
          record b { thread_name = record { prefix = take 12 name; name_i = 0 } },
          ground (arith, e, le, at, boundary),
          refl,
          thread_names-Names (take 12 name) b.worker_threads (omega (arith, length-take 12 name))
              few,
        )
        | inr within ↦ inl (
          byte,
          at,
          ground (arith, within),
          ground (arith, within),
          ground (arith, e, le, at, within),
        )
      ]
]
