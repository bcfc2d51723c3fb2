-- ===== src/Scheduler/Thread.antt =====
-- kernel/src/arch/x86_64/regs.h, kernel/src/scheduler/thread.h, and the static variables of
-- kernel/src/scheduler/scheduler.c. Threads are records at addresses; 0 is NULL. `idle` is the
-- address of the static `idle_thread`, and `freed` lists the pointers that were given to kfree.
use ded_os.Base.{ℕ, Bool, List}

pub record Registers : Type 0 where
  pub r15 : ℕ
  pub r14 : ℕ
  pub r13 : ℕ
  pub r12 : ℕ
  pub r11 : ℕ
  pub r10 : ℕ
  pub r9 : ℕ
  pub r8 : ℕ
  pub rbp : ℕ
  pub rdi : ℕ
  pub rsi : ℕ
  pub rdx : ℕ
  pub rcx : ℕ
  pub rbx : ℕ
  pub rax : ℕ
  pub vector : ℕ
  pub error_code : ℕ
  pub rip : ℕ
  pub cs : ℕ
  pub rflags : ℕ
  pub rsp : ℕ
  pub ss : ℕ

pub data ThreadState : Type 0 where
  ready running blocked dead : ThreadState

pub record Thread : Type 0 where
  pub id : ℕ
  pub state : ThreadState
  pub context : Registers
  pub stack : ℕ
  pub wake_tick : ℕ
  pub quantum : ℕ
  pub kernel_stack_top : ℕ
  pub process : ℕ
  pub next : ℕ

abbrev pub scheduler_quantum : ℕ
scheduler_quantum = 10

pub record Sched : Type 0 where
  pub run_queue : ℕ
  pub current : ℕ
  pub locked : Bool
  pub idle : ℕ
  pub timer_ticks : ℕ
  pub tss_rsp0 : ℕ
  pub freed : List ℕ
  pub threads : ℕ → Thread
