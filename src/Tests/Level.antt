-- ===== src/Tests/Level.antt =====
-- A runtime of two workers, and the names of its threads.
use protosocket.Prelude.{ℕ, ◌%◌, ◌^◌, ◌≡◌, refl, List, [], ◌∷◌, length, some, none, arith}
use protosocket.Level.Worker
use protosocket.Level.Worker.{LevelWorker, from_runtime}
use protosocket.Level.Runtime.{LevelRuntime, spawn_balanced, spawn_local_here}
use protosocket.Level.Load.{Reach, start, step, balanced, here, dropped, concurrency-length}
use protosocket.Level.Balance.{Balances, spawn_balanced-Balances}
use protosocket.Level.Builder.{Builder, thread_name_prefix, thread_names}
use protosocket.Level.Names.{Named, thread_name_prefix-Named}

abbrev busy : LevelWorker ℕ
busy = record { concurrency = 1; tasks = record { future = 7 } ∷ [] }

abbrev idle : LevelWorker ℕ
idle = record { concurrency = 0; tasks = [] }

abbrev runtime : LevelRuntime ℕ
runtime = record { workers = idle ∷ busy ∷ [] }

-- A task goes to each worker, and the first one's ends.
runtime_reached : Reach 2 runtime
unfolding from_runtime spawn_balanced spawn_local_here Worker.drop_task
runtime_reached =
    let r0 : Reach 2 (record { workers = idle ∷ idle ∷ [] }) = start in
    let r1 : Reach 2 (record { workers = idle ∷ busy ∷ [] }) = step r0 (balanced 0 1 7 refl) in
    let r2 : Reach 2 (record {
      workers = record { concurrency = 1; tasks = record { future = 9 } ∷ [] } ∷ busy ∷ [];
    }) =
      step r1 (here (some 0) 9 refl) in
    step r2 (
      dropped 0 0 (record { concurrency = 1; tasks = record { future = 9 } ∷ [] }) refl
        (omega arith))

concurrency-length_example : busy.concurrency ≡ length busy.tasks % 2 ^ 64
concurrency-length_example = concurrency-length 2 1 busy runtime_reached refl

spawn_balanced-Balances_example :
    (r' : LevelRuntime ℕ) × (spawn_balanced runtime 1 0 5 ≡ some r') × Balances runtime 1 0 5 r'
spawn_balanced-Balances_example = spawn_balanced-Balances runtime 1 0 5 (omega arith) (omega arith)

spawn_balanced_run :
    spawn_balanced runtime 1 0 5
    ≡ some (record {
      workers = record { concurrency = 1; tasks = record { future = 5 } ∷ [] } ∷ busy ∷ [];
    })
unfolding spawn_balanced
spawn_balanced_run = refl

-- `workers` and, with an accent within which the cut would fall, `aaaaaaaaaaa` and two bytes more.
abbrev workers_prefix : List ℕ
workers_prefix = 119 ∷ 111 ∷ 114 ∷ 107 ∷ 101 ∷ 114 ∷ 115 ∷ []

abbrev accented : List ℕ
accented = 97 ∷ 97 ∷ 97 ∷ 97 ∷ 97 ∷ 97 ∷ 97 ∷ 97 ∷ 97 ∷ 97 ∷ 97 ∷ 195 ∷ 169 ∷ []

abbrev two_workers : Builder
two_workers = record {
  worker_threads = 2;
  thread_name = record { prefix = workers_prefix; name_i = 0 };
}

thread_name_prefix-Named_example : Named two_workers accented
thread_name_prefix-Named_example = thread_name_prefix-Named two_workers accented (omega arith)

accented_panics : thread_name_prefix two_workers accented ≡ none
unfolding thread_name_prefix
accented_panics = refl

names_run :
    (thread_names two_workers.thread_name 2).0
    ≡ (119 ∷ 111 ∷ 114 ∷ 107 ∷ 101 ∷ 114 ∷ 115 ∷ 45 ∷ 48 ∷ 48 ∷ [])
      ∷ (119 ∷ 111 ∷ 114 ∷ 107 ∷ 101 ∷ 114 ∷ 115 ∷ 45 ∷ 48 ∷ 49 ∷ [])
      ∷ []
unfolding thread_names
names_run = refl
