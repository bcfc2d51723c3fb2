-- ===== src/Scheduler/Process/Name.antt =====
-- The name of a process that kernel/src/scheduler/process.c makes: at most 63 characters, and a NUL.
use mathlib.Core.Path.{subst}
use ded_os.Base.{
  ℕ, zero, suc, ◌+◌, ◌<◌, ◌≡◌, refl, ◌≢◌, sym, ◌∙◌, ap, inl, inr, List, [], ◌∷◌, arith, ◌==◌, ==-ne,
  if_true, if_false, Bool-cases,
}
use ded_os.Base.Word.{add64}
use ded_os.Base.Memory.{update_self, update_ne}
use ded_os.Strings.Compare.{IsString}
use ded_os.Scheduler.Process.{
  Process, process_running, Processes, process_size, copy_name, process_create,
}

-- The first `n` elements of a list, or all of them.
abbrev pub take : ℕ → List ℕ → List ℕ
take zero xs = []
take (suc n) [] = []
take (suc n) (x ∷ xs) = x ∷ take n xs

-- What is before index `i` stays.
copy_name-before : (n i j : ℕ) (name dest : ℕ → ℕ) → j < i → copy_name n i name dest j ≡ dest j
unfolding copy_name
copy_name-before zero i j name dest h = update_ne dest i 0 j (λ e. omega arith)
copy_name-before (suc n) i j name dest h = elim (Bool-cases (name i == 0)) [
  | inl e ↦ ap (λ (m : ℕ → ℕ). m j) (if_true _ _ _ e) ∙ update_ne dest i 0 j (λ e. omega arith)
  | inr e ↦
      ap (λ (m : ℕ → ℕ). m j) (if_false _ _ _ e)
      ∙ copy_name-before n (i + 1) j name _ (omega arith)
      ∙ update_ne dest i _ j (λ e. omega arith)
]

copy_name-IsString :
    (n i : ℕ) (xs : List ℕ) (name dest : ℕ → ℕ)
    → IsString name i xs
    → IsString (copy_name n i name dest) i (take n xs)
unfolding copy_name
copy_name-IsString zero i xs name dest s = update_self dest i 0
copy_name-IsString (suc n) i [] name dest s =
    ap (λ (m : ℕ → ℕ). m i) (if_true (name i == 0) _ _ (ap (λ c. c == 0) s)) ∙ update_self dest i 0
copy_name-IsString (suc n) i (x ∷ xs) name dest (e, ne, s) =
    subst (λ (m : ℕ → ℕ). IsString m i (x ∷ take n xs))
      (sym (if_false (name i == 0) _ _ (ap (λ c. c == 0) e ∙ ==-ne x 0 ne)))
      (
        copy_name-before n (i + 1) i name _ (omega arith) ∙ update_self dest i (name i) ∙ e,
        ne,
        copy_name-IsString n (i + 1) xs name _ s,
      )

-- If the heap gives a block, `process_create` returns it as a running process with the next number,
-- whose name is the first 63 characters of the name that was given, with a NUL behind them.
pub process_create-named :
    {H : Type 0} (kmalloc : ℕ → H → H × ℕ) (name : ℕ → ℕ) (xs : List ℕ) (s : Processes H)
    → IsString name 0 xs
    → (kmalloc process_size s.heap).1 ≢ 0
    → let (s', proc) = process_create kmalloc name s in
      (proc ≡ (kmalloc process_size s.heap).1)
      × ((s'.processes proc).state ≡ process_running)
      × ((s'.processes proc).pid ≡ s.next_pid)
      × IsString (s'.processes proc).name 0 (take 63 xs)
      × (s'.next_pid ≡ add64 s.next_pid 1)
unfolding process_create
process_create-named kmalloc name xs s str ne =
    let proc = (kmalloc process_size s.heap).1 in
    let made : Process = record {
      pid = s.next_pid;
      state = process_running;
      name = copy_name 63 0 name (s.processes proc).name;
      next = 0;
    } in
    let at = update_self s.processes proc made in
    subst
      (λ (r : Processes _ × ℕ).
        (r.1 ≡ proc)
        × ((r.0.processes r.1).state ≡ process_running)
        × ((r.0.processes r.1).pid ≡ s.next_pid)
        × IsString (r.0.processes r.1).name 0 (take 63 xs)
        × (r.0.next_pid ≡ add64 s.next_pid 1))
      (sym (if_false _ _ _ (==-ne proc 0 ne)))
      (
        refl,
        ap (λ (p : Process). p.state) at,
        ap (λ (p : Process). p.pid) at,
        subst (λ (p : Process). IsString p.name 0 (take 63 xs)) (sym at)
            (copy_name-IsString 63 0 xs name _ str),
        refl,
      )
