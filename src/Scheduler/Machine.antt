-- ===== src/Scheduler/Machine.antt =====
-- The model's theorems carried over to the linked run queue: histories of calls of
-- kernel/src/scheduler/scheduler.c and kernel/src/scheduler/thread.c on the state in memory.
use ded_os.Base.{
  ℕ, ◌+◌, ◌<◌, ◌≤◌, ◌≡◌, refl, ◌≢◌, sym, ◌∙◌, ap, ◌⊎◌, true, false, some, List, [], ◌∷◌, arith,
  length,
}
use ded_os.Base.Word.{add64}
use ded_os.Scheduler.Thread.{Registers, Sched}
use ded_os.Scheduler.Tick.{timer_interrupt, scheduler_tick_irq, thread_exit}
use ded_os.Scheduler.Chain.{has, IsChain}
use ded_os.Scheduler.Model.{View, Outcome, view}
use ded_os.Scheduler.Model
use ded_os.Scheduler.Shows.{Shows}
use ded_os.Scheduler.Sound.{Queued, length-tick}
use ded_os.Scheduler.Refine.{scheduler_tick_irq-refines}
use ded_os.Scheduler.Callers.{timer_interrupt-refines, thread_exit-refines}
use ded_os.Scheduler.System.{
  Event, interrupted, steps, model_steps, model_step, AllAllowed, steps-refines,
}
use ded_os.Scheduler.Leak.{Calm}
use ded_os.Scheduler.Dead.{model_steps-Calm, exit-drops}
use ded_os.Scheduler.Keep.{Lives, tick-keeps}
use ded_os.Scheduler.Starve.{Duels, run, run-starves}
use ded_os.Scheduler.Resume.{Away, interrupt-resumes}

module _ {s : Sched} {v : View} (r : Shows s v) where
  shown_current : s.current ≡ v.current
  shown_current = ap (λ (w : View). w.current) r.rest

  shown_freed : s.freed ≡ v.freed
  shown_freed = ap (λ (w : View). w.freed) r.rest

-- In every history of timer interrupts, yields, exits, sleeps, new threads and lock changes that
-- starts with only ready and blocked threads queued, `kfree` is never called: the memory of the
-- threads that exit is kept for ever.
pub steps-frees_nothing :
    (k : ℕ) (es : List Event) {s : Sched} {v : View}
    → AllAllowed es v
    → Shows s v
    → Queued v
    → Calm v.freed v
    → length v.queue + length es < k
    → (s' : Sched) × (steps k es s ≡ some s') × (s'.freed ≡ s.freed)
steps-frees_nothing k es ok r q c h =
    let ((s', run, shown), _) = steps-refines k es ok r q h in
    (s', run, shown_freed shown ∙ (model_steps-Calm es ok q c).kept ∙ sym (shown_freed r))

-- `thread_exit`, with the scheduler unlocked, of a thread other than the idle one, on a state that shows
-- `v`, whose queue keeps the invariant and holds only ready and blocked threads (`Calm`), ends with fuel
-- for the queue: afterwards the run queue is a list that the thread is not on, another thread runs, and
-- nothing was freed.
pub thread_exit-leaves :
    (k : ℕ) {s : Sched} {v : View} (frame : Registers)
    → Shows s v
    → Queued v
    → Calm v.freed v
    → v.locked ≡ false
    → v.current ≢ v.idle
    → length v.queue < k
    → (s' : Sched) × (frame' : Registers) × (queue : List ℕ) × (thread_exit k frame s
        ≡ some (s', frame'))
      × IsChain s'.threads s'.run_queue queue
      × (has s.current (s'.current ∷ queue) ≡ false)
      × (s'.freed ≡ s.freed)
thread_exit-leaves k {s} {v} frame r q c free ne h =
    let (s', run, shown) = thread_exit-refines k frame r q h in
    let (gone, kept) = exit-drops frame q c free ne in
    (
      s',
      (Model.exit frame v).1,
      (Model.exit frame v).0.queue,
      run,
      shown.chain,
      ap (λ a. has a (s'.current ∷ (Model.exit frame v).0.queue)) (shown_current r)
          ∙ ap (λ c. has v.current (c ∷ (Model.exit frame v).0.queue)) (shown_current shown)
          ∙ gone,
      shown_freed shown ∙ kept ∙ sym (shown_freed r),
    )

-- The timer interrupts with these frames, as events.
abbrev pub interrupts : List Registers → List Event
interrupts [] = []
interrupts (frame ∷ frames) = interrupted frame ∷ interrupts frames

pub interrupts-allowed : (frames : List Registers) (v : View) → AllAllowed (interrupts frames) v
interrupts-allowed [] v = tt
interrupts-allowed (frame ∷ frames) v = (tt, interrupts-allowed frames _)

model_steps-interrupts :
    (frames : List Registers) (v : View) → model_steps (interrupts frames) v ≡ run frames v
unfolding model_steps run model_step
model_steps-interrupts [] v = refl
model_steps-interrupts (frame ∷ frames) v =
    model_steps-interrupts frames (Model.interrupt frame v).0

pub length-interrupts : (frames : List Registers) → length (interrupts frames) ≡ length frames
length-interrupts [] = refl
length-interrupts (frame ∷ frames) = rw (length-interrupts frames)

-- Timer interrupts end, and show the model's.
interrupts-refine :
    (k : ℕ) (frames : List Registers) {s : Sched} {v : View}
    → Shows s v
    → Queued v
    → length v.queue + length frames < k
    → ((s' : Sched) × (steps k (interrupts frames) s ≡ some s') × Shows s' (run frames v))
      × Queued (run frames v)
interrupts-refine k frames {s} {v} r q h = rw (← model_steps-interrupts frames v) (
    steps-refines k (interrupts frames) (interrupts-allowed frames v) r q
      (rw (length-interrupts frames) h))

-- If `x` runs and `y` is ready in front of the run queue, or the other way round, and neither is
-- the idle thread, then after any number of timer interrupts one of the two runs, whoever else is
-- ready.
pub steps-starves :
    (k : ℕ) {x y : ℕ} (frames : List Registers) {s : Sched} {v : View}
    → Shows s v
    → Queued v
    → Duels x y v
    → length v.queue + length frames < k
    → (s' : Sched) × (steps k (interrupts frames) s ≡ some s')
      × ((s'.current ≡ x) ⊎ (s'.current ≡ y))
steps-starves k frames {s} {v} r q d h =
    let ((s', ran, shown), _) = interrupts-refine k frames r q h in
    (s', ran, rw (shown_current shown) (run-starves frames v d))

-- A call of `scheduler_tick_irq`, on a state that shows `v`, whose queue keeps the invariant, ends with
-- fuel for the queue and loses no thread: whoever runs or is queued before, and is neither dead nor the
-- idle thread, runs or is on the run queue afterwards.
pub scheduler_tick_irq-keeps :
    (k : ℕ) {a : ℕ} (frame : Registers) {s : Sched} {v : View}
    → Shows s v
    → Queued v
    → Lives a v
    → length v.queue < k
    → (s' : Sched) × (frame' : Registers) × (queue : List ℕ) × (scheduler_tick_irq k frame s
        ≡ some (s', frame'))
      × IsChain s'.threads s'.run_queue queue
      × (has a (s'.current ∷ queue) ≡ true)
scheduler_tick_irq-keeps k frame {s} {v} r q l h =
    let (s', ran, shown) = scheduler_tick_irq-refines k frame r q h in
    (
      s',
      (Model.tick frame v).1,
      (Model.tick frame v).0.queue,
      ran,
      shown.chain,
      rw (shown_current shown) (tick-keeps frame l),
    )

length-run :
    (frames : List Registers) (v : View)
    → length (run frames v).queue ≤ length v.queue + length frames
unfolding run Model.interrupt
length-run [] v = omega arith
length-run (frame ∷ frames) v = omega (
  arith,
  length-run frames (Model.interrupt frame v).0,
  length-tick frame (record v { timer_ticks = add64 v.timer_ticks 1 }),
)

-- A thread, not the idle one, that a timer interrupt with the frame `f` takes the processor from
-- goes on with the registers of `f`: if it does not run in the interrupts with the frames `gs` that
-- follow, and the model's next interrupt makes it current again, then so does `timer_interrupt`, and
-- the frame becomes `f`, all but the vector and the error code, which it keeps.
pub timer_interrupt-resumes :
    (k : ℕ) (f : Registers) (gs : List Registers) (g : Registers) {s : Sched} {v : View}
    → Shows s v
    → Queued v
    → v.current ≢ v.idle
    → Away v.current gs (Model.interrupt f v).0
    → (Model.interrupt g (run (f ∷ gs) v)).0.current ≡ v.current
    → length v.queue + (1 + length gs) < k
    → (s1 : Sched) × (s2 : Sched) × (frame' : Registers) × (steps k (interrupts (f ∷ gs)) s
        ≡ some s1)
      × (timer_interrupt k g s1 ≡ some (s2, frame'))
      × (s2.current ≡ s.current)
      × (frame' ≡ record f { vector = g.vector; error_code = g.error_code })
timer_interrupt-resumes k f gs g {s} {v} r q ne away back h =
    let ((s1, ran, shown), q1) = interrupts-refine k (f ∷ gs) r q (omega arith) in
    let (s2, last, shown2) =
      timer_interrupt-refines k g shown q1 (omega (arith, length-run (f ∷ gs) v)) in
    (
      s1,
      s2,
      (Model.interrupt g (run (f ∷ gs) v)).1,
      ran,
      last,
      shown_current shown2 ∙ back ∙ sym (shown_current r),
      unfold run in interrupt-resumes f gs g v ne away back,
    )
