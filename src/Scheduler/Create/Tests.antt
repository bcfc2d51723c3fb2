-- ===== src/Scheduler/Create/Tests.antt =====
-- A heap that hands out one block of 4096 bytes after the other.
use ded_os.Base.{ℕ, ◌+◌, ◌≡◌, arith}
use ded_os.Scheduler.Create.{Creator, no_thread, thread_create}
use ded_os.Scheduler.Create.Stack.{Startable, thread_create-Startable}

abbrev bump : ℕ → ℕ → ℕ × ℕ
bump size h = (h + 4096, h)

abbrev keep : ℕ → ℕ → ℕ
keep p h = h

abbrev creator : Creator ℕ
creator = record { heap = 4096; next_tid = 7; threads = λ a. no_thread; words = λ a. 0 }

thread_create-Startable_example :
    let r = thread_create bump keep 500 3 600 creator in
    (r.1 ≡ 4096) × Startable 4096 600 500 7 r.0 × (r.0.next_tid ≡ 8)
thread_create-Startable_example =
    thread_create-Startable bump keep 500 3 600 creator (omega arith) (omega arith) (omega arith)
