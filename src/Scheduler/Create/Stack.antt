-- ===== src/Scheduler/Create/Stack.antt =====
-- The first stack frame of a thread that kernel/src/scheduler/thread.c makes, and what is left when the
-- heap is exhausted.
use mathlib.Core.Path.{subst}
use ded_os.Base.{
  ℕ, ◌+◌, ◌%◌, ◌^◌, ◌≤◌, ◌<◌, ◌≡◌, refl, ◌≢◌, sym, ◌∙◌, ap, ◌⊎◌, inl, inr, arith, ◌==◌, ==_iff,
  ==-ne, if◌then◌else◌, if_true, if_false,
}
use ded_os.Base.Word.{add64}
use ded_os.Base.Memory.{update, update_self}
use ded_os.Scheduler.Thread.{Thread, ready, scheduler_quantum}
use ded_os.Scheduler.Create.{
  Creator, thread_stack_size, thread_size, no_thread, first_sp, new_thread, thread_create,
}

-- A thread at `t` that starts at `entry`, and returns to `exit`, on its own stack of `stack_size` bytes.
pub record Startable {H : Type 0} (t entry exit tid : ℕ) (s : Creator H) : Type 0 where
  pub is_ready : (s.threads t).state ≡ ready
  pub full_quantum : (s.threads t).quantum ≡ scheduler_quantum
  pub starts : (s.threads t).context.rip ≡ entry
  pub named : (s.threads t).id ≡ tid
  pub returns : s.words (s.threads t).context.rsp ≡ exit
  pub aligned : (s.threads t).context.rsp % 16 ≡ 8
  pub above : (s.threads t).stack ≤ (s.threads t).context.rsp
  pub below : (s.threads t).context.rsp + 8 ≤ (s.threads t).stack + thread_stack_size

module _ {H : Type 0} (kmalloc : ℕ → H → H × ℕ) (kfree : ℕ → H → H) (exit process entry : ℕ)
    (s : Creator H) where
  abbrev heap1 : H
  heap1 = (kmalloc thread_size s.heap).0

  abbrev t : ℕ
  t = (kmalloc thread_size s.heap).1

  abbrev heap2 : H
  heap2 = (kmalloc thread_stack_size heap1).0

  abbrev stack : ℕ
  stack = (kmalloc thread_stack_size heap1).1

  -- If the heap gives both blocks, below the end of the address space, `thread_create` returns a thread
  -- that is ready with a full quantum, has the next number, starts at `entry` and returns to
  -- `thread_exit`, with a stack pointer inside its stack that is aligned as at a function's entry.
  pub thread_create-Startable :
      t ≢ 0
      → stack ≢ 0
      → stack + thread_stack_size < 2 ^ 64
      → let r = thread_create kmalloc kfree exit process entry s in
        (r.1 ≡ t) × Startable t entry exit s.next_tid r.0 × (r.0.next_tid ≡ add64 s.next_tid 1)
  unfolding thread_create
  thread_create-Startable some_t some_stack room =
      subst
        (λ (r : Creator H × ℕ).
          (r.1 ≡ t) × Startable t entry exit s.next_tid r.0 × (r.0.next_tid ≡ add64 s.next_tid 1))
        (sym (if_false _ _ _ (==-ne t 0 some_t) ∙ if_false _ _ _ (==-ne stack 0 some_stack)))
        (refl, startable, refl)
    where
      made : Thread
      made = new_thread s.next_tid process entry stack

      state : Creator H
      state = record {
        heap = heap2;
        next_tid = add64 s.next_tid 1;
        threads = update (update s.threads t no_thread) t made;
        words = update s.words (first_sp (add64 stack thread_stack_size)) exit;
      }

      at : state.threads t ≡ made
      at = update_self (update s.threads t no_thread) t made

      startable : Startable t entry exit s.next_tid state
      startable = record {
        is_ready = ap (λ (x : Thread). x.state) at;
        full_quantum = ap (λ (x : Thread). x.quantum) at;
        starts = ap (λ (x : Thread). x.context.rip) at;
        named = ap (λ (x : Thread). x.id) at;
        returns =
            ap (λ (x : Thread). state.words x.context.rsp) at
            ∙ update_self s.words (first_sp (add64 stack thread_stack_size)) exit;
        aligned = ap (λ (x : Thread). x.context.rsp % 16) at ∙ omega (arith, room);
        above = subst (λ (x : Thread). x.stack ≤ x.context.rsp) (sym at) (omega (arith, room));
        below =
            subst (λ (x : Thread). x.context.rsp + 8 ≤ x.stack + thread_stack_size) (sym at)
              (omega (arith, room));
      }

  -- If the heap has no block for the thread, or none for its stack, `thread_create` returns NULL and
  -- makes no number and no stack frame; in the second case it gives the first block back.
  pub thread_create-fails :
      let r = thread_create kmalloc kfree exit process entry s in
      (t ≡ 0) ⊎ ((t ≢ 0) × (stack ≡ 0))
      → (r.1 ≡ 0)
        × (r.0.next_tid ≡ s.next_tid)
        × (r.0.words ≡ s.words)
        × (r.0.heap ≡ (if t == 0 then heap1 else kfree t heap2))
  unfolding thread_create
  thread_create-fails (inl e) =
      subst
        (λ (r : Creator H × ℕ).
          (r.1 ≡ 0)
          × (r.0.next_tid ≡ s.next_tid)
          × (r.0.words ≡ s.words)
          × (r.0.heap ≡ (if t == 0 then heap1 else kfree t heap2)))
        (sym (if_true _ _ _ ((==_iff t 0).1 e)))
        (refl, refl, refl, sym (if_true _ _ _ ((==_iff t 0).1 e)))
  thread_create-fails (inr (ne, e)) =
      subst
        (λ (r : Creator H × ℕ).
          (r.1 ≡ 0)
          × (r.0.next_tid ≡ s.next_tid)
          × (r.0.words ≡ s.words)
          × (r.0.heap ≡ (if t == 0 then heap1 else kfree t heap2)))
        (sym (if_false _ _ _ (==-ne t 0 ne) ∙ if_true _ _ _ ((==_iff stack 0).1 e)))
        (refl, refl, refl, sym (if_false _ _ _ (==-ne t 0 ne)))
