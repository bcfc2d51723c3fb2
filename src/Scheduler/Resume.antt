-- ===== src/Scheduler/Resume.antt =====
-- Context switches: a thread that was interrupted goes on later with the registers that it had.
use ded_os.Base.{
  ℕ, ◌-◌, ◌≡◌, refl, ◌≢◌, sym, ◌∙◌, ap, List, [], ◌∷◌, arith, ◌==◌, ==-ne, if_both, if_false, ltb,
}
use ded_os.Base.Word.{add64}
use ded_os.Base.Memory.{update_self, update_ne, update-read}
use ded_os.Scheduler.Thread.{
  Registers, Thread, ThreadState, ready, running, blocked, dead, scheduler_quantum,
}
use ded_os.Scheduler.Loops.{woken}
use ded_os.Scheduler.Chain.{has, wake_all, without_first_ready}
use ded_os.Scheduler.Tick.{save_context, load_frame}
use ded_os.Scheduler.Starve.{run}
use ded_os.Scheduler.Model.{
  View, Outcome, wake, reap, charge, requeue, leave, set_current, enter, chosen, switch,
  charge_or_switch, tick, interrupt,
}

abbrev pub context : View → ℕ → Registers
context v a = (v.threads a).context

-- A frame that is saved and loaded again is that frame, but for the two fields that the processor
-- pushes anew.
load_frame-save_context :
    (g c f : Registers)
    → load_frame g (save_context c f) ≡ record f { vector = g.vector; error_code = g.error_code }
unfolding load_frame save_context
load_frame-save_context g c f = refl

requeue-context : (v : View) (a : ℕ) → context (requeue v) a ≡ context v a
unfolding requeue
requeue-context v a = at (v.threads v.current).state refl
  where
    at : (st : ThreadState) → (v.threads v.current).state ≡ st → context (requeue v) a ≡ context v a
    at ready e = rw (e, requeue)
    at blocked e = rw (e, requeue)
    at dead e = rw (e, requeue)
    at running e =
        rw (e, requeue)
          (update-read (λ (t : Thread). t.context) v.threads v.current
            (record (v.threads v.current) { state = ready; quantum = scheduler_quantum }) a refl)

requeue-current : (v : View) → (requeue v).current ≡ v.current
unfolding requeue
requeue-current v = at (v.threads v.current).state refl
  where
    at : (st : ThreadState) → (v.threads v.current).state ≡ st → (requeue v).current ≡ v.current
    at ready e = rw (e, requeue)
    at blocked e = rw (e, requeue)
    at dead e = rw (e, requeue)
    at running e = rw (e, requeue)

module _ (f : Registers) (v : View) where
  -- Leaving saves the frame in the current thread, and in no other.
  leave-context : (a : ℕ) → a ≢ v.current → context (leave f v) a ≡ context v a
  unfolding leave set_current
  leave-context a ne =
      if_both (λ (w : View). context w a ≡ context v a) (v.current == v.idle) refl
        (ap (λ (t : Thread). t.context)
            (update_ne (requeue v).threads (requeue v).current _ a (rw (requeue-current v) ne))
          ∙ requeue-context v a)

  saves_at :
      (w : View) (a : ℕ)
      → w.current ≡ a
      → context (set_current (λ t. record t { context = save_context t.context f }) w) a
        ≡ save_context (context w a) f
  unfolding set_current
  saves_at w a e = rw (← e) (ap (λ (t : Thread). t.context) (update_self w.threads w.current _))

  leave-saves :
      v.current ≢ v.idle → context (leave f v) v.current ≡ save_context (context v v.current) f
  unfolding leave set_current
  leave-saves ne =
      ap (λ (w : View). context w v.current) (if_false (v.current == v.idle) v _ (==-ne _ _ ne))
      ∙ saves_at (requeue v) v.current (requeue-current v)
      ∙ ap (λ (c : Registers). save_context c f) (requeue-context v v.current)

  enter-context : (next a : ℕ) → context (enter next v) a ≡ context v a
  unfolding enter
  enter-context next a =
      update-read (λ (t : Thread). t.context) v.threads next
        (record (v.threads next) { state = running; quantum = scheduler_quantum }) a refl

-- The contexts that a tick leaves, and the frame that it hands back.
record Switched (f : Registers) (v : View) (o : Outcome) : Type 0 where
  others : (a : ℕ) → a ≢ v.current → context o.0 a ≡ context v a
  saves :
      o.0.current ≢ v.current
      → v.current ≢ v.idle
      → context o.0 v.current ≡ save_context (context v v.current) f
  loads : o.0.current ≢ v.current → o.1 ≡ load_frame f (context o.0 o.0.current)

switch-Switched : (f : Registers) (v : View) → Switched f v (switch f v)
unfolding switch
switch-Switched f v =
    let w = record v { queue = without_first_ready v.threads v.queue } in
    record {
      others = λ a ne. enter-context f (leave f w) (chosen v) a ∙ leave-context f w a ne;
      saves = λ _ ne. enter-context f (leave f w) (chosen v) v.current ∙ leave-saves f w ne;
      loads = λ _. unfold enter in refl;
    }

same-Switched :
    (f : Registers) (v w : View)
    → w.current ≡ v.current
    → ((a : ℕ) → context w a ≡ context v a)
    → Switched f v (w, f)
same-Switched f v w e same = record {
  others = λ a _. same a;
  saves = λ ne. absurd (ne e);
  loads = λ ne. absurd (ne e);
}

before-Switched :
    (f : Registers) (v w : View) (o : Outcome)
    → w.current ≡ v.current
    → w.idle ≡ v.idle
    → ((a : ℕ) → context w a ≡ context v a)
    → Switched f w o
    → Switched f v o
before-Switched f v w o e i same s = record {
  others = λ a ne. s.others a (rw e ne) ∙ same a;
  saves = λ ne ni.
      ap (context o.0) (sym e)
      ∙ s.saves (λ h. ne (h ∙ e)) (λ h. ni (sym e ∙ h ∙ i))
      ∙ ap (λ (c : Registers). save_context c f) (ap (context w) e ∙ same v.current);
  loads = λ ne. s.loads (rw e ne);
}

-- Waking, reaping and charging change neither a context nor who runs.
prepared : View → View
prepared v = charge (reap (wake v))

woken-context : (now : ℕ) (t : Thread) → (woken now t).context ≡ t.context
woken-context now t = ground arith

wake-context : (v : View) (a : ℕ) → context (wake v) a ≡ context v a
unfolding wake wake_all
wake-context v a =
    if_both (λ (t : Thread). t.context ≡ context v a) (has a v.queue)
      (woken-context v.timer_ticks (v.threads a)) refl

prepared-context : (v : View) (a : ℕ) → context (prepared v) a ≡ context v a
unfolding prepared charge reap
prepared-context v a =
    let w = wake v in
    let t = w.threads w.current in
    if_both (λ (u : View). context u a ≡ context v a) (ltb 0 t.quantum)
      (update-read (λ (t : Thread). t.context) w.threads w.current
          (record t { quantum = t.quantum - 1 }) a refl
        ∙ wake-context v a)
      (wake-context v a)

prepared-fields : (v : View) → ((prepared v).current ≡ v.current) × ((prepared v).idle ≡ v.idle)
unfolding prepared charge reap wake
prepared-fields v =
    if_both (λ (u : View). (u.current ≡ v.current) × (u.idle ≡ v.idle))
      (ltb 0 ((wake v).threads (wake v).current).quantum) (refl, refl) (refl, refl)

tick-Switched : (f : Registers) (v : View) → Switched f v (tick f v)
unfolding tick charge_or_switch prepared
tick-Switched f v =
    let w = prepared v in
    let (cur, idle) = prepared-fields v in
    if_both (Switched f v) v.locked (same-Switched f v v refl (λ a. refl)) (
      if_both (Switched f v) (ltb 0 (w.threads w.current).quantum)
        (same-Switched f v w cur (prepared-context v))
        (before-Switched f v w (switch f w) cur idle (prepared-context v) (switch-Switched f w)))

interrupt-Switched : (f : Registers) (v : View) → Switched f v (interrupt f v)
unfolding interrupt
interrupt-Switched f v =
    let w = record v { timer_ticks = add64 v.timer_ticks 1 } in
    before-Switched f v w (tick f w) refl refl (λ a. refl) (tick-Switched f w)

-- Thread `a` does not run between the timer interrupts with the frames `gs`.
abbrev pub Away : ℕ → List Registers → View → Type 0
Away a [] v = v.current ≢ a
Away a (g ∷ gs) v = (v.current ≢ a) × Away a gs (interrupt g v).0

Away-context :
    (a : ℕ) (gs : List Registers) (v : View) → Away a gs v → context (run gs v) a ≡ context v a
unfolding run
Away-context a [] v away = refl
Away-context a (g ∷ gs) v away =
    Away-context a gs (interrupt g v).0 away.1
    ∙ (interrupt-Switched g v).others a (λ h. away.0 (sym h))

Away-last : (a : ℕ) (gs : List Registers) (v : View) → Away a gs v → (run gs v).current ≢ a
unfolding run
Away-last a [] v away = away
Away-last a (g ∷ gs) v away = Away-last a gs (interrupt g v).0 away.1

first-Away : (a : ℕ) (gs : List Registers) (v : View) → Away a gs v → v.current ≢ a
first-Away a [] v away = away
first-Away a (g ∷ gs) v away = away.0

-- A thread that a timer interrupt with the frame `f` took the processor from gets it back, however
-- many interrupts later, with the registers of `f`: all but the vector and the error code, which
-- the last interrupt's frame keeps.
pub interrupt-resumes :
    (f : Registers) (gs : List Registers) (g : Registers) (v : View)
    → v.current ≢ v.idle
    → Away v.current gs (interrupt f v).0
    → (interrupt g (run gs (interrupt f v).0)).0.current ≡ v.current
    → (interrupt g (run gs (interrupt f v).0)).1
      ≡ record f { vector = g.vector; error_code = g.error_code }
interrupt-resumes f gs g v not_idle away back =
    let v1 = (interrupt f v).0 in
    let vn = run gs v1 in
    let left = Away-last v.current gs v1 away in
    let s = interrupt-Switched g vn in
    s.loads (λ h. left (sym h ∙ back))
    ∙ ap (load_frame g) (
        ap (context (interrupt g vn).0) back
        ∙ s.others v.current (λ h. left (sym h))
        ∙ Away-context v.current gs v1 away
        ∙ (interrupt-Switched f v).saves (first-Away v.current gs v1 away) not_idle)
    ∙ load_frame-save_context g (context v v.current) f
