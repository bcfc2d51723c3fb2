-- ===== src/Scheduler/Shows.antt =====
-- When a scheduler state shows a view, and what writing one thread does to the view.
use mathlib.Core.Path.{fun_ext, subst}
use ded_os.Base.{
  ℕ, ◌≡◌, ◌∙◌, ap, inl, inr, false, List, arith, ◌==◌, ==_iff, ==_self, if◌then◌else◌, Bool-cases,
}
use ded_os.Base.Memory.{update}
use ded_os.Scheduler.Thread.{Thread, Sched}
use ded_os.Scheduler.Loops.{set_thread}
use ded_os.Scheduler.Chain.{Store, IsChain, IsChain-frame, has, body}
use ded_os.Scheduler.Model.{View, view}
use ded_os.Scheduler.Model

-- The run queue of `s` stands for the list that `v` shows, and `s` shows the rest of `v`.
pub record Shows (s : Sched) (v : View) : Type 0 where
  pub chain : IsChain s.threads s.run_queue v.queue
  pub rest : view s v.queue ≡ v

unfoldable pub bodies : Store → Store
bodies m a = body (m a)

pub bodies-update :
    (m : Store) (x : ℕ) (t : Thread) → bodies (update m x t) ≡ update (bodies m) x (body t)
unfolding bodies update
bodies-update m x t = fun_ext λ a. ground arith

pub update-same : (m : Store) (x : ℕ) → update m x (m x) ≡ m
unfolding update
update-same m x = fun_ext λ a. at a
  where
    at : (a : ℕ) → (if a == x then m x else m a) ≡ m a
    at a = elim (Bool-cases (a == x)) [
      | inl e ↦ let e' : a ≡ x = (==_iff a x).0 e in rw (e', ==_self x)
      | inr e ↦ rw e
    ]

-- A thread is written, and its link is not.
pub view-set_thread :
    (s : Sched) (q : List ℕ) (x : ℕ) (t : Thread)
    → view (set_thread x t s) q
      ≡ record (view s q) { threads = update (view s q).threads x (body t) }
unfolding bodies
view-set_thread s q x t =
    ap (λ (m : Store). record (view s q) { threads = m }) (bodies-update s.threads x t)

pub IsChain-set_thread :
    (m : Store) (x p : ℕ) (t : Thread) (xs : List ℕ)
    → t.next ≡ (m x).next
    → IsChain m p xs
    → IsChain (update m x t) p xs
unfolding update
IsChain-set_thread m x p t xs e c = IsChain-frame m (update m x t) p xs c (λ a h. ground arith)

pub IsChain-outside :
    (m : Store) (x p : ℕ) (t : Thread) (xs : List ℕ)
    → has x xs ≡ false
    → IsChain m p xs
    → IsChain (update m x t) p xs
unfolding update
IsChain-outside m x p t xs out c = IsChain-frame m (update m x t) p xs c (λ a h. ground arith)

-- A change of the current thread that leaves its link alone.
pub set_current-Shows :
    {s : Sched} {v : View} (f : Thread → Thread)
    → ((t : Thread) → (f t).next ≡ t.next)
    → ((t : Thread) → body (f t) ≡ f (body t))
    → Shows s v
    → Shows (set_thread s.current (f (s.threads s.current)) s) (Model.set_current f v)
unfolding Model.set_current
set_current-Shows {s} {v} f keeps commutes r = record {
  chain = IsChain-set_thread s.threads _ _ _ v.queue (keeps _) r.chain;
  rest =
      view-set_thread s v.queue s.current _
      ∙ ap
          (λ (t : Thread). record (view s v.queue) {
            threads = update (view s v.queue).threads s.current t;
          })
          (commutes (s.threads s.current))
      ∙ ap (Model.set_current f) r.rest;
}

-- From the view of the state to any view that it shows.
pub lift :
    {s s' : Sched} {v : View} (op : View → View)
    → Shows s v
    → Shows s' (op (view s v.queue))
    → Shows s' (op v)
lift {s'} op r h = subst (λ w. Shows s' (op w)) r.rest h
