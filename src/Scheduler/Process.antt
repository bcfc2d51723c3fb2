-- ===== src/Scheduler/Process.antt =====
-- kernel/src/scheduler/process.c. The heap is a parameter as in Create; `name` is the memory that the
-- name's pointer points to, by its index.
pub mod Name
use ded_os.Base.{ℕ, zero, suc, ◌+◌, if◌then◌else◌, ◌==◌}
use ded_os.Base.Word.{add64}
use ded_os.Base.Memory.{update}

pub data ProcessState : Type 0 where
  process_running process_dead : ProcessState

pub record Process : Type 0 where
  pub pid : ℕ
  pub state : ProcessState
  pub name : ℕ → ℕ
  pub next : ℕ

pub record Processes (H : Type 0) : Type 0 where
  pub heap : H
  pub next_pid : ℕ
  pub processes : ℕ → Process

abbrev pub process_size : ℕ
process_size = 88

-- `while (name[i] && i < 63)`, with `n` rounds left before the bound, and the NUL behind it.
unfoldable pub copy_name : ℕ → ℕ → (ℕ → ℕ) → (ℕ → ℕ) → ℕ → ℕ
copy_name zero i name dest = update dest i 0
copy_name (suc n) i name dest =
    let rest = copy_name n (i + 1) name (update dest i (name i)) in
    if name i == 0 then update dest i 0 else rest

module _ {H : Type 0} (kmalloc : ℕ → H → H × ℕ) where
  unfoldable pub process_create : (ℕ → ℕ) → Processes H → Processes H × ℕ
  process_create name s =
      let (heap, proc) = kmalloc process_size s.heap in
      let made : Process = record {
        pid = s.next_pid;
        state = process_running;
        name = copy_name 63 0 name (s.processes proc).name;
        next = 0;
      } in
      if proc == 0 then (record s { heap = heap }, 0) else (
        record {
          heap = heap;
          next_pid = add64 s.next_pid 1;
          processes = update s.processes proc made;
        },
        proc,
      )

unfoldable pub process_destroy : {H : Type 0} → (ℕ → H → H) → ℕ → Processes H → Processes H
process_destroy kfree proc s = if proc == 0 then s else record s {
  processes = update s.processes proc (record (s.processes proc) { state = process_dead });
  heap = kfree proc s.heap;
}
