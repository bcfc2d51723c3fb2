-- ===== src/Scheduler/Create.antt =====
-- `thread_create` of kernel/src/scheduler/thread.c. The heap is a parameter: its state, and its
-- `kmalloc` and `kfree`; so is the address of `thread_exit`. `words` is the memory that the stacks are
-- in, by words.
pub mod Stack
mod Tests
use ded_os.Base.{ℕ, ◌+◌, ◌-◌, ◌*◌, ◌/◌, if◌then◌else◌, ◌==◌}
use ded_os.Base.Word.{add64, sub64}
use ded_os.Base.Memory.{update}
use ded_os.Scheduler.Thread.{Registers, Thread, ready, scheduler_quantum}

abbrev pub thread_stack_size : ℕ
thread_stack_size = 4096

abbrev pub thread_size : ℕ
thread_size = 240

pub record Creator (H : Type 0) : Type 0 where
  pub heap : H
  pub next_tid : ℕ
  pub threads : ℕ → Thread
  pub words : ℕ → ℕ

-- What memset leaves.
abbrev pub no_registers : Registers
no_registers = record {
  r15 = 0;
  r14 = 0;
  r13 = 0;
  r12 = 0;
  r11 = 0;
  r10 = 0;
  r9 = 0;
  r8 = 0;
  rbp = 0;
  rdi = 0;
  rsi = 0;
  rdx = 0;
  rcx = 0;
  rbx = 0;
  rax = 0;
  vector = 0;
  error_code = 0;
  rip = 0;
  cs = 0;
  rflags = 0;
  rsp = 0;
  ss = 0;
}

abbrev pub no_thread : Thread
no_thread = record {
  id = 0;
  state = ready;
  context = no_registers;
  stack = 0;
  wake_tick = 0;
  quantum = 0;
  kernel_stack_top = 0;
  process = 0;
  next = 0;
}

-- `--sp` after `sp & ~0xF`.
abbrev pub first_sp : ℕ → ℕ
first_sp top = sub64 (top / 16 * 16) 8

abbrev pub new_thread : ℕ → ℕ → ℕ → ℕ → Thread
new_thread tid process entry stack =
    let top = add64 stack thread_stack_size in
    record no_thread {
      id = tid;
      state = ready;
      process = process;
      quantum = scheduler_quantum;
      stack = stack;
      next = 0;
      wake_tick = 0;
      kernel_stack_top = top;
      context = record no_registers {
        rip = entry;
        rsp = first_sp top;
        rbp = 0;
        rbx = 0;
        cs = 0x08;
        ss = 0x10;
        rflags = 0x202;
        r12 = 0;
        r13 = 0;
        r14 = 0;
        r15 = 0;
      };
    }

module _ {H : Type 0} (kmalloc : ℕ → H → H × ℕ) (kfree : ℕ → H → H) (thread_exit_address : ℕ) where
  unfoldable pub thread_create : ℕ → ℕ → Creator H → Creator H × ℕ
  thread_create process entry s =
      let (heap1, thread) = kmalloc thread_size s.heap in
      let (heap2, stack) = kmalloc thread_stack_size heap1 in
      let zeroed = record s { heap = heap2; threads = update s.threads thread no_thread } in
      if thread == 0
      then (record s { heap = heap1 }, 0)
      else if stack == 0
      then (record zeroed { heap = kfree thread heap2 }, 0)
      else (
        record zeroed {
          next_tid = add64 s.next_tid 1;
          threads = update zeroed.threads thread (new_thread s.next_tid process entry stack);
          words = update s.words (first_sp (add64 stack thread_stack_size)) thread_exit_address;
        },
        thread,
      )
