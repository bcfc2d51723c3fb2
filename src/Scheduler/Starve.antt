-- ===== src/Scheduler/Starve.antt =====
-- Who runs next. The interrupted thread is queued in front, and the first ready thread of the queue
-- is taken: two threads that are always ready leave the processor to nobody else.
use ded_os.Base.{
  ℕ, ◌-◌, ◌≡◌, refl, ◌≢◌, sym, ◌∙◌, ap, ◌⊎◌, inl, inr, false, List, [], ◌∷◌, ◌==◌, ==-ne,
  if◌then◌else◌, if_both, ltb,
}
use ded_os.Base.Word.{add64}
use ded_os.Base.Memory.{update, update_self, update_ne, update-read}
use ded_os.Scheduler.Thread.{Registers, Thread, ThreadState, ready, running, scheduler_quantum}
use ded_os.Scheduler.Loops.{is_blocked, woken}
use ded_os.Scheduler.Chain.{Store, has, wake_all, alive, first_ready, without_first_ready}
use ded_os.Scheduler.Tick.{save_context}
use ded_os.Scheduler.Queue.{has-alive}
use ded_os.Scheduler.Model.{
  View, Outcome, wake, reap, charge, requeue, leave, set_current, enter, chosen, switch,
  charge_or_switch, tick, interrupt,
}

-- `x` runs, and `y` is first in the queue and ready; neither is the idle thread or NULL.
pub record Duel (x y : ℕ) (v : View) : Type 0 where
  pub runs : v.current ≡ x
  pub running_x : (v.threads x).state ≡ running
  pub ready_y : (v.threads y).state ≡ ready
  pub behind : List ℕ
  pub queue : v.queue ≡ y ∷ behind
  pub differ : x ≢ y
  pub not_idle_x : x ≢ v.idle
  pub not_idle_y : y ≢ v.idle
  pub some_x : x ≢ 0
  pub some_y : y ≢ 0
  pub out_x : has x behind ≡ false
  pub out_y : has y behind ≡ false

woken_same :
    (now : ℕ) (t : Thread) (st : ThreadState)
    → is_blocked st ≡ false
    → t.state ≡ st
    → (woken now t).state ≡ st
woken_same now t st other e = rw (e, other)

alive_head :
    (m : Store) (y : ℕ) (ys : List ℕ) → (m y).state ≡ ready → alive m (y ∷ ys) ≡ y ∷ alive m ys
unfolding alive
alive_head m y ys e = rw e

module _ {x y : ℕ} {v : View} (d : Duel x y v) where
  ticks-Duel : (n : ℕ) → Duel x y (record v { timer_ticks = n })
  ticks-Duel n = record {
    runs = d.runs;
    running_x = d.running_x;
    ready_y = d.ready_y;
    behind = d.behind;
    queue = d.queue;
    differ = d.differ;
    not_idle_x = d.not_idle_x;
    not_idle_y = d.not_idle_y;
    some_x = d.some_x;
    some_y = d.some_y;
    out_x = d.out_x;
    out_y = d.out_y;
  }

  wake-Duel : Duel x y (wake v)
  unfolding wake wake_all
  wake-Duel = record {
    runs = d.runs;
    running_x =
        if_both (λ (t : Thread). t.state ≡ running) (has x v.queue)
          (woken_same v.timer_ticks (v.threads x) running refl d.running_x) d.running_x;
    ready_y =
        if_both (λ (t : Thread). t.state ≡ ready) (has y v.queue)
          (woken_same v.timer_ticks (v.threads y) ready refl d.ready_y) d.ready_y;
    behind = d.behind;
    queue = d.queue;
    differ = d.differ;
    not_idle_x = d.not_idle_x;
    not_idle_y = d.not_idle_y;
    some_x = d.some_x;
    some_y = d.some_y;
    out_x = d.out_x;
    out_y = d.out_y;
  }

  reap-Duel : Duel x y (reap v)
  unfolding reap
  reap-Duel = record {
    runs = d.runs;
    running_x = d.running_x;
    ready_y = d.ready_y;
    behind = alive v.threads d.behind;
    queue = rw d.queue (alive_head v.threads y d.behind d.ready_y);
    differ = d.differ;
    not_idle_x = d.not_idle_x;
    not_idle_y = d.not_idle_y;
    some_x = d.some_x;
    some_y = d.some_y;
    out_x = has-alive v.threads x d.behind d.out_x;
    out_y = has-alive v.threads y d.behind d.out_y;
  }

  charge-Duel : Duel x y (charge v)
  unfolding charge
  charge-Duel =
      if_both (Duel x y) (ltb 0 (v.threads v.current).quantum)
        (record {
          runs = d.runs;
          running_x = kept x ∙ d.running_x;
          ready_y = kept y ∙ d.ready_y;
          behind = d.behind;
          queue = d.queue;
          differ = d.differ;
          not_idle_x = d.not_idle_x;
          not_idle_y = d.not_idle_y;
          some_x = d.some_x;
          some_y = d.some_y;
          out_x = d.out_x;
          out_y = d.out_y;
        })
        d
    where
      kept :
          (a : ℕ)
          → (update v.threads v.current
              (record (v.threads v.current) { quantum = (v.threads v.current).quantum - 1 })
              a).state
            ≡ (v.threads a).state
      kept a = update-read (λ (t : Thread). t.state) v.threads v.current _ a refl

  chosen_y : chosen v ≡ y
  unfolding chosen first_ready
  chosen_y =
      ap (λ (q : List ℕ). let n = first_ready v.threads q in if n == 0 then v.idle else n) d.queue
      ∙ rw (d.ready_y, first_ready) (rw (==-ne y 0 d.some_y))

  without_y : without_first_ready v.threads v.queue ≡ d.behind
  unfolding without_first_ready
  without_y = ap (without_first_ready v.threads) d.queue ∙ rw (d.ready_y, without_first_ready)

  -- The running thread as it is queued again.
  again : Thread
  again = record (v.threads v.current) { state = ready; quantum = scheduler_quantum }

  saved : Registers → Thread
  saved frame =
      let t = update v.threads v.current again v.current in
      record t { context = save_context t.context frame }

  left :
      (frame : Registers) (q : List ℕ)
      → leave frame (record v { queue = q }) ≡ record v {
        queue = v.current ∷ q;
        threads = update (update v.threads v.current again) v.current (saved frame);
      }
  unfolding leave requeue set_current again saved
  left frame q =
      rw (==-ne v.current v.idle (rw d.runs d.not_idle_x)) (rw (running_current, requeue))
    where
      running_current : (v.threads v.current).state ≡ running
      running_current = rw d.runs d.running_x

  saved_ready :
      (frame : Registers)
      → (update (update v.threads v.current again) v.current (saved frame) x).state ≡ ready
  unfolding again saved
  saved_ready frame = rw (← d.runs) (
      ap (λ (t : Thread). t.state) (update_self (update v.threads v.current again) v.current _)
      ∙ ap (λ (t : Thread). t.state) (update_self v.threads v.current _))

  -- When the quantum is used up they change places.
  switch-Duel : (frame : Registers) → Duel y x (switch frame v).0
  unfolding switch enter
  switch-Duel frame =
      rw (chosen_y, without_y, left frame d.behind)
        (record {
          runs = refl;
          running_x = ap (λ (t : Thread). t.state) (update_self _ y _);
          ready_y = ap (λ (t : Thread). t.state) (update_ne _ y _ x d.differ) ∙ saved_ready frame;
          behind = d.behind;
          queue = ap (λ z. z ∷ d.behind) d.runs;
          differ = λ e. d.differ (sym e);
          not_idle_x = d.not_idle_y;
          not_idle_y = d.not_idle_x;
          some_x = d.some_y;
          some_y = d.some_x;
          out_x = d.out_y;
          out_y = d.out_x;
        })

-- The state after timer interrupts, one for each frame.
unfoldable pub run : List Registers → View → View
run [] v = v
run (frame ∷ frames) v = run frames (interrupt frame v).0

abbrev pub Duels : ℕ → ℕ → View → Type 0
Duels x y v = Duel x y v ⊎ Duel y x v

interrupt-Duel :
    {x y : ℕ} {v : View} (frame : Registers) → Duel x y v → Duels x y (interrupt frame v).0
unfolding interrupt tick charge_or_switch
interrupt-Duel {x} {y} {v} frame d =
    if_both (λ (o : Outcome). Duels x y o.0) v.locked (inl ticked)
      (if_both (λ (o : Outcome). Duels x y o.0)
        (ltb 0 ((charge w).threads (charge w).current).quantum) (inl charged)
        (inr (switch-Duel charged frame)))
  where
    ticked : Duel x y (record v { timer_ticks = add64 v.timer_ticks 1 })
    ticked = ticks-Duel d (add64 v.timer_ticks 1)

    w : View
    w = reap (wake (record v { timer_ticks = add64 v.timer_ticks 1 }))

    charged : Duel x y (charge w)
    charged = charge-Duel (reap-Duel (wake-Duel ticked))

swap_sides : {x y : ℕ} {v : View} → Duels y x v → Duels x y v
swap_sides (inl d) = inr d
swap_sides (inr d) = inl d

-- Once one of two threads runs and the other is ready in front of the queue, every later timer
-- interrupt leaves one of the two running, whoever else is ready: nobody else ever runs.
pub run-starves :
    {x y : ℕ} (frames : List Registers) (v : View)
    → Duels x y v
    → ((run frames v).current ≡ x) ⊎ ((run frames v).current ≡ y)
unfolding run
run-starves [] v (inl d) = inl d.runs
run-starves [] v (inr d) = inr d.runs
run-starves (frame ∷ frames) v (inl d) =
    run-starves frames (interrupt frame v).0 (interrupt-Duel frame d)
run-starves (frame ∷ frames) v (inr d) =
    run-starves frames (interrupt frame v).0 (swap_sides (interrupt-Duel frame d))
