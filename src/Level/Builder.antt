-- ===== src/Level/Builder.antt =====
-- level-runtime/src/builder.rs: the settings of a runtime, and the names of its threads. A text is its
-- UTF-8 bytes. The settings that are handed to tokio's own builder as they are have no place here.
use protosocket.Prelude.{
  ℕ, zero, suc, ◌+◌, ◌/◌, ◌%◌, Bool, ◌||◌, if◌then◌else◌, ltb, leb, ◌==◌, List, [], ◌∷◌, ◌++◌,
  length, get_elem?, take, replicate, Option, none, some,
}
use protosocket.Prelude.Word.{add64}
use protosocket.Level.Worker.{from_runtime}
use protosocket.Level.Runtime.{LevelRuntime}

-- What `thread_name` holds: the counter is shared by all that copy it.
pub record ThreadName : Type 0 where
  pub prefix : List ℕ
  pub name_i : ℕ

pub record Builder : Type 0 where
  pub worker_threads : ℕ
  pub thread_name : ThreadName

-- `level`
abbrev pub level : List ℕ
level = 108 ∷ 101 ∷ 118 ∷ 101 ∷ 108 ∷ []

-- `Builder::default`: its counter is one for the whole process, and `started` is where it stands.
unfoldable pub default : ℕ → Builder
default started = record {
  worker_threads = 1;
  thread_name = record { prefix = level; name_i = started };
}

unfoldable pub worker_threads : Builder → ℕ → Builder
worker_threads b threads = record b { worker_threads = threads }

-- The decimal digits of a number, for `fuel` above the number of its digits.
unfoldable pub digits : ℕ → ℕ → List ℕ
digits zero i = []
digits (suc fuel) i =
    let rest = digits fuel (i / 10) in
    if ltb i 10 then (48 + i) ∷ [] else rest ++ (48 + i % 10) ∷ []

-- `{i:02}`. A usize has at most 20 digits.
unfoldable pub two_digits : ℕ → List ℕ
unfolding digits
two_digits i = if ltb i 10 then 48 ∷ (48 + i) ∷ [] else digits 20 i

-- `str::is_char_boundary`: the byte is none that continues a character.
unfoldable pub is_char_boundary : List ℕ → ℕ → Bool
is_char_boundary name at = elim (get_elem? name at) [
  | none ↦ length name == at
  | some byte ↦ ltb byte 128 || leb 192 byte
]

-- `String::truncate`: `none` is its panic within a character.
unfoldable pub truncate : List ℕ → ℕ → Option (List ℕ)
unfolding is_char_boundary
truncate name new_len =
    if leb new_len (length name)
    then (if is_char_boundary name new_len then some (take new_len name) else none)
    else some name

unfoldable pub thread_name_prefix : Builder → List ℕ → Option Builder
unfolding truncate
thread_name_prefix b name =
    let cut = truncate name 12 in
    elim (if ltb 12 (length name) then cut else some name) [
      | none ↦ none
      | some short ↦ some (record b { thread_name = record { prefix = short; name_i = 0 } })
    ]

-- The call of `thread_name`.
unfoldable pub next_name : ThreadName → List ℕ × ThreadName
unfolding two_digits
next_name t = (t.prefix ++ 45 ∷ two_digits t.name_i, record t { name_i = add64 t.name_i 1 })

unfoldable pub build : {F : Type 0} → Builder → LevelRuntime F
unfolding from_runtime
build b = record { workers = replicate b.worker_threads from_runtime }

-- `start` and `run_with_termination`: a thread for each worker, under the next name.
unfoldable pub thread_names : ThreadName → ℕ → List (List ℕ) × ThreadName
unfolding next_name
thread_names t zero = ([], t)
thread_names t (suc workers) =
    let (name, t') = next_name t in
    let (names, last) = thread_names t' workers in (name ∷ names, last)
