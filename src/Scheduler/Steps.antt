-- ===== src/Scheduler/Steps.antt =====
-- Each step of `scheduler_tick_irq` on linked threads does to the view what the model's step does.
use mathlib.Core.Path.{fun_ext}
use ded_os.Base.{
  ℕ, ◌≡◌, refl, ◌≢◌, ◌∙◌, ap, ◌⊎◌, inl, inr, true, false, List, ◌∷◌, arith, ◌==◌, Bool-cases, ltb,
}
use ded_os.Base.Memory.{update, update_self}
use ded_os.Scheduler.Thread.{
  Registers, Thread, ThreadState, ready, running, blocked, dead, Sched, scheduler_quantum,
}
use ded_os.Scheduler.Loops.{set_thread}
use ded_os.Scheduler.Tick
use ded_os.Scheduler.Tick.{push_current, save_current, load_frame, save_context, switch_to}
use ded_os.Scheduler.Chain.{Store, IsChain, IsChain-frame, has, body, wake_all}
use ded_os.Scheduler.Model.{View, view}
use ded_os.Scheduler.Model
use ded_os.Scheduler.Shows.{
  Shows, bodies, update-same, bodies-update, view-set_thread, IsChain-set_thread, IsChain-outside,
  set_current-Shows, lift,
}

pub charge-Shows : {s : Sched} {v : View} → Shows s v → Shows (Tick.charge s) (Model.charge v)
unfolding Tick.charge Model.charge
charge-Shows {s} {v} r = lift Model.charge r (at (Bool-cases (ltb 0 (s.threads s.current).quantum)))
  where
    at :
        (ltb 0 (s.threads s.current).quantum ≡ true) ⊎ (ltb 0 (s.threads s.current).quantum ≡ false)
        → Shows (Tick.charge s) (Model.charge (view s v.queue))
    at (inl e) = rw e (record {
      chain = IsChain-set_thread s.threads s.current s.run_queue _ v.queue refl r.chain;
      rest = view-set_thread s v.queue s.current _;
    })
    at (inr e) = rw e (record { chain = r.chain; rest = refl })

-- The current thread in front of the queue.
push_current-Shows :
    (s : Sched) (q : List ℕ)
    → IsChain s.threads s.run_queue q
    → has s.current q ≡ false
    → s.current ≢ 0
    → Shows (push_current s) (record (view s q) { queue = s.current ∷ q })
unfolding push_current bodies
push_current-Shows s q c out ne =
    let t = record (s.threads s.current) { next = s.run_queue } in
    record {
      chain = (
        refl,
        ne,
        rw (ap (λ (t : Thread). t.next) (update_self s.threads s.current t))
            (IsChain-outside s.threads s.current s.run_queue t q out c),
      );
      rest =
          ap (λ (m : Store). record (view s q) { queue = s.current ∷ q; threads = m })
            (bodies-update s.threads s.current t ∙ update-same (bodies s.threads) s.current);
    }

pub requeue-Shows :
    {s : Sched} {v : View}
    → Shows s v
    → has s.current v.queue ≡ false
    → s.current ≢ 0
    → Shows (Tick.requeue s) (Model.requeue v)
unfolding Tick.requeue Model.requeue
requeue-Shows {s} {v} r out ne = lift Model.requeue r (at (s.threads s.current).state refl)
  where
    pushed : Shows (push_current s) (record (view s v.queue) { queue = s.current ∷ v.queue })
    pushed = push_current-Shows s v.queue r.chain out ne

    again : Thread
    again = record (s.threads s.current) { state = ready; quantum = scheduler_quantum }

    ready_again : Shows (push_current (set_thread s.current again s)) (record (view s v.queue) {
      queue = s.current ∷ v.queue;
      threads = update (view s v.queue).threads s.current (body again);
    })
    ready_again =
        let s1 = set_thread s.current again s in
        let p =
          push_current-Shows s1 v.queue
            (IsChain-set_thread s.threads s.current s.run_queue again v.queue refl r.chain) out
            ne in
        record {
          chain = p.chain;
          rest =
              p.rest
              ∙ ap (λ (w : View). record w { queue = s.current ∷ v.queue })
                  (view-set_thread s v.queue s.current again);
        }

    at :
        (st : ThreadState)
        → (s.threads s.current).state ≡ st
        → Shows (Tick.requeue s) (Model.requeue (view s v.queue))
    at ready e = rw (e, Tick.requeue, Model.requeue) pushed
    at blocked e = rw (e, Tick.requeue, Model.requeue) pushed
    at dead e = rw (e, Tick.requeue, Model.requeue) (record { chain = r.chain; rest = refl })
    at running e = rw (e, Tick.requeue, Model.requeue) ready_again

pub leave-Shows :
    {s : Sched} {v : View} (frame : Registers)
    → Shows s v
    → has s.current v.queue ≡ false
    → s.current ≢ 0
    → Shows (Tick.leave frame s) (Model.leave frame v)
unfolding Tick.leave Model.leave save_current
leave-Shows {s} {v} frame r out ne =
    lift (Model.leave frame) r (at (Bool-cases (s.current == s.idle)))
  where
    at :
        ((s.current == s.idle) ≡ true) ⊎ ((s.current == s.idle) ≡ false)
        → Shows (Tick.leave frame s) (Model.leave frame (view s v.queue))
    at (inl e) = rw e (record { chain = r.chain; rest = refl })
    at (inr e) = rw e (
        set_current-Shows (λ t. record t { context = save_context t.context frame }) (λ t. refl)
          (λ t. refl) (requeue-Shows (record { chain = r.chain; rest = refl }) out ne))

pub enter-Shows :
    {s : Sched} {v : View} (next : ℕ) → Shows s v → Shows (Tick.enter next s) (Model.enter next v)
unfolding Tick.enter Model.enter
enter-Shows {s} {v} next r =
    lift (Model.enter next) r (at (Bool-cases ((s.threads next).context.cs == 0x1B)))
  where
    t : Thread
    t = record (s.threads next) { state = running; quantum = scheduler_quantum }

    chain : IsChain (update s.threads next t) s.run_queue v.queue
    chain = IsChain-set_thread s.threads next s.run_queue t v.queue refl r.chain

    at :
        (((s.threads next).context.cs == 0x1B) ≡ true)
          ⊎ (((s.threads next).context.cs == 0x1B) ≡ false)
        → Shows (Tick.enter next s) (Model.enter next (view s v.queue))
    at (inl e) = rw e (record {
      chain = chain;
      rest =
          ap (λ (w : View). record w { current = next; tss_rsp0 = t.kernel_stack_top })
            (view-set_thread s v.queue next t);
    })
    at (inr e) = rw e (record {
      chain = chain;
      rest = ap (λ (w : View). record w { current = next }) (view-set_thread s v.queue next t);
    })

pub wake-Shows :
    {s : Sched} {v : View}
    → Shows s v
    → Shows (record s { threads = wake_all s.timer_ticks v.queue s.threads }) (Model.wake v)
unfolding Model.wake bodies
wake-Shows {s} {v} r = lift Model.wake r (record { chain = chain; rest = rest })
  where
    wake_all-next : (a : ℕ) → (wake_all s.timer_ticks v.queue s.threads a).next ≡ (s.threads a).next
    wake_all-next a = unfold wake_all in ground arith

    chain : IsChain (wake_all s.timer_ticks v.queue s.threads) s.run_queue v.queue
    chain =
        IsChain-frame s.threads (wake_all s.timer_ticks v.queue s.threads) s.run_queue v.queue
          r.chain (λ a h. wake_all-next a)

    commutes :
        (a : ℕ)
        → body (wake_all s.timer_ticks v.queue s.threads a)
          ≡ wake_all s.timer_ticks v.queue (bodies s.threads) a
    commutes a = unfold wake_all bodies in ground arith

    rest :
        view (record s { threads = wake_all s.timer_ticks v.queue s.threads }) v.queue
        ≡ record (view s v.queue) { threads = wake_all s.timer_ticks v.queue (bodies s.threads) }
    rest = ap (λ (m : Store). record (view s v.queue) { threads = m }) (fun_ext commutes)
