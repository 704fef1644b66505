-- ===== src/Sched/Create.antt =====
-- `create_kernel_process` of kernel/process/kprocess_loader.c: the registers of a new process, and
-- what a failed allocation leaves in the table.
use native.Mathlib.Decide.{dec_lt}
use craybond_os.Base.{
  ℕ, ◌+◌, ◌<◌, ◌≡◌, ◌≢◌, refl, none, some, Bool, true, arith, ◌==◌, ==_refl, ==_ne, leb_gt, add64,
  eq_or_ne, ap, Bool-cases, subst, ◌∙◌, inl, inr,
}
use craybond_os.Outcome.{Outcome, done}
use craybond_os.Sched.{
  ready, Process, Scheduler, is_ready, max_procs, put, init_process, Created, process, failed,
  null_write, stack_size, start_kernel_process, create_kernel_process,
}
use craybond_os.Sched.Table.{IsTable}
use craybond_os.Sched.Fair.{Resumes, switch_proc-Resumes}

-- The table after a kernel process has been added to it.
pub record Started (s : Scheduler) (func stack : ℕ) (t : Scheduler) : Type 0 where
  pub count : t.proc_count ≡ s.proc_count + 1
  pub current : t.current_proc ≡ s.current_proc
  pub pc : (t.processes s.proc_count).pc ≡ func
  pub sp : (t.processes s.proc_count).sp ≡ add64 stack 0x1000
  pub spsr : (t.processes s.proc_count).spsr ≡ 0x3C5
  pub state : (t.processes s.proc_count).state ≡ ready
  pub others : (i : ℕ) → i ≢ s.proc_count → t.processes i ≡ s.processes i
  pub table : IsTable t

-- What `create_kernel_process` comes to when the allocator returns `stack`.
pub data CreateResult (s : Scheduler) (func stack : ℕ) : Created × Scheduler → Type 0 where
  created :
      {t : Scheduler}
      → s.proc_count < max_procs
      → stack ≢ 0
      → Started s func stack t
      → CreateResult s func stack (process s.proc_count, t)
  no_slot : s.proc_count ≡ max_procs → stack ≢ 0 → CreateResult s func stack (null_write, s)
  no_slot_no_memory : s.proc_count ≡ max_procs → stack ≡ 0 → CreateResult s func stack (failed, s)
  no_memory :
      {t : Scheduler}
      → s.proc_count < max_procs
      → stack ≡ 0
      → t.proc_count ≡ s.proc_count + 1
      → t.current_proc ≡ s.current_proc
      → ((i : ℕ) → (t.processes i).pc ≡ (s.processes i).pc)
      → ((i : ℕ) → (t.processes i).state ≡ (s.processes i).state)
      → IsTable t
      → CreateResult s func stack (failed, t)

-- The entry that `init_process` hands out has its identifier set and nothing else.
abbrev with_id : Scheduler → Process
with_id s = record (s.processes s.proc_count) { id = s.proc_count }

module _ (f : ℕ → Process) (i : ℕ) where
  put_same : (p : Process) → put f i p i ≡ p
  put_same p = rw (==_refl i) refl

  put_other : (p : Process) (j : ℕ) → j ≢ i → put f i p j ≡ f j
  put_other p j other = rw (==_ne j i other) refl

  -- What a field of an entry keeps, the table keeps.
  put_keeps {ℓ} :
      {A : Type ℓ} (field : Process → A) (p : Process)
      → field p ≡ field (f i)
      → (j : ℕ) → field (put f i p j) ≡ field (f j)
  put_keeps field p e j = elim (eq_or_ne j i) [
    | inl q ↦ rw (q, put_same p) e
    | inr q ↦ rw (put_other p j q) refl
  ]

-- The table with an entry behind the last one.
abbrev with_entry : Scheduler → Process → Scheduler
with_entry s p = record s {
  processes = put s.processes s.proc_count p;
  proc_count = s.proc_count + 1;
}

with_entry-IsTable :
    (s : Scheduler) (p : Process)
    → IsTable s
    → s.proc_count < max_procs
    → p.id ≡ s.proc_count
    → IsTable (with_entry s p)
with_entry-IsTable s p (bound, ids) less e = (
  omega arith,
  λ i below. elim (eq_or_ne i s.proc_count) [
    | inl q ↦ rw (q, put_same s.processes s.proc_count p) e
    | inr q ↦ rw (put_other s.processes s.proc_count p i q) (ids i (omega arith))
  ],
)

init_process-slot :
    (s : Scheduler)
    → s.proc_count < max_procs
    → init_process s ≡ (some s.proc_count, with_entry s (with_id s))
unfolding init_process
init_process-slot s less = rw (leb_gt max_procs s.proc_count less) refl

init_process-no_slot : (s : Scheduler) → s.proc_count ≡ max_procs → init_process s ≡ (none, s)
unfolding init_process
init_process-no_slot s e = rw e refl

-- The entry of a process that is set up.
abbrev started : Scheduler → (func stack : ℕ) → Process
started s func stack = record (with_id s) {
  sp = add64 stack 0x1000;
  pc = func;
  spsr = 0x3C5;
  state = ready;
}

module _ (f : ℕ → Process) (i : ℕ) (p q : Process) where
  put-put : (j : ℕ) → put (put f i p) i q j ≡ put f i q j
  put-put j = elim (Bool-cases (j == i)) [ inl e ↦ rw e refl | inr e ↦ rw e refl ]

start_kernel_process-slot :
    (s : Scheduler) (func stack : ℕ)
    → start_kernel_process (some s.proc_count) func stack (with_entry s (with_id s))
      ≡ (process s.proc_count, with_entry s (started s func stack))
unfolding start_kernel_process stack_size
start_kernel_process-slot s func stack = rw (==_refl s.proc_count) (
    ap (λ g. (process s.proc_count, record s { processes = g; proc_count = s.proc_count + 1 }))
      (λ t j. put-put s.processes s.proc_count (with_id s) (started s func stack) j t))

started-Started :
    (s : Scheduler) (func stack : ℕ)
    → IsTable s
    → s.proc_count < max_procs
    → Started s func stack (with_entry s (started s func stack))
started-Started s func stack table less =
    let p = started s func stack in
    let same : put s.processes s.proc_count p s.proc_count ≡ p =
      put_same s.processes s.proc_count p in
    record {
      count = refl;
      current = refl;
      pc = ap (λ q. q.pc) same;
      sp = ap (λ q. q.sp) same;
      spsr = ap (λ q. q.spsr) same;
      state = ap (λ q. q.state) same;
      others = put_other s.processes s.proc_count p;
      table = with_entry-IsTable s p table less refl;
    }

module _ {A : Type 0} (alloc_proc_mem : ℕ → Bool → A → Outcome (ℕ × A)) (func : ℕ) (s : Scheduler)
    (a b : A) where
  -- On a well-formed table, and with an allocator that returns `stack`, `create_kernel_process`
  -- returns. If there is a slot and the stack is not 0, the new last process starts at `func` on
  -- top of the stack, and the other entries stay. If there is a slot and the stack is 0, it fails,
  -- and the slot is counted all the same. If there is no slot, it writes through the null pointer
  -- if the stack is not 0, and fails with the table unchanged if it is 0.
  pub create_kernel_process-CreateResult :
      IsTable s
      → (stack : ℕ) → alloc_proc_mem 0x1000 true a ≡ done (stack, b)
      → (r : Created × Scheduler) × (create_kernel_process alloc_proc_mem func s a
          ≡ done (r.0, r.1, b))
        × CreateResult s func stack r
  unfolding create_kernel_process stack_size start_kernel_process
  create_kernel_process-CreateResult table stack e = elim (dec_lt s.proc_count max_procs) [
    | yes less ↦ elim (eq_or_ne stack 0) [
      | inl z ↦ (
        (failed, with_entry s (with_id s)),
        rw (init_process-slot s less, e, z) refl,
        no_memory less z refl refl (put_keeps s.processes s.proc_count (λ p. p.pc) (with_id s) refl)
            (put_keeps s.processes s.proc_count (λ p. p.state) (with_id s) refl)
            (with_entry-IsTable s (with_id s) table less refl),
      )
      | inr z ↦ (
        (process s.proc_count, with_entry s (started s func stack)),
        rw (init_process-slot s less, e, ==_ne stack 0 z)
            (ap (λ r. done (r.0, r.1, b)) (start_kernel_process-slot s func stack)),
        created less z (started-Started s func stack table less),
      )
    ]
    | no more ↦
        let full : s.proc_count ≡ max_procs = omega (arith, table.0) in
        elim (eq_or_ne stack 0) [
          | inl z ↦
              ((failed, s), rw (init_process-no_slot s full, e, z) refl, no_slot_no_memory full z)
          | inr z ↦ (
            (null_write, s),
            rw (init_process-no_slot s full, e, ==_ne stack 0 z) refl,
            no_slot full z,
          )
        ]
  ]

-- When the allocator fails on a table with room whose next slot is as it was zeroed (state READY
-- and `pc` 0), the half-made process stays behind: `create_kernel_process` returns 0, and yet
-- within as many calls of `switch_proc` as there were processes the machine resumes an entry whose
-- `pc` is 0.
pub create_kernel_process-Resumes :
    {A : Type 0} (alloc_proc_mem : ℕ → Bool → A → Outcome (ℕ × A)) (func : ℕ) (s : Scheduler)
    (a b : A)
    → IsTable s
    → s.current_proc < s.proc_count
    → s.proc_count < max_procs
    → is_ready (s.processes s.proc_count).state ≡ true
    → (s.processes s.proc_count).pc ≡ 0
    → alloc_proc_mem 0x1000 true a ≡ done (0, b)
    → (t : Scheduler) × (create_kernel_process alloc_proc_mem func s a ≡ done (failed, t, b))
      × ((t.processes s.proc_count).pc ≡ 0)
      × Resumes s.proc_count s.proc_count t
create_kernel_process-Resumes alloc func s a b table inside less r pc e =
    go (create_kernel_process-CreateResult alloc func s a b table 0 e)
  where
    go :
        (r : Created × Scheduler) × (create_kernel_process alloc func s a ≡ done (r.0, r.1, b))
          × CreateResult s func 0 r
        → (t : Scheduler) × (create_kernel_process alloc func s a ≡ done (failed, t, b))
          × ((t.processes s.proc_count).pc ≡ 0)
          × Resumes s.proc_count s.proc_count t
    go (_, run, created _ ne _) = absurd (ne refl)
    go (_, run, no_slot _ ne) = absurd (ne refl)
    go (_, run, no_slot_no_memory full _) = absurd (omega arith)
    go (_, run, no_memory {t} _ _ count current pcs states _) = (
      t,
      run,
      pcs s.proc_count ∙ pc,
      subst (λ n. Resumes s.proc_count n t) (omega arith)
          (switch_proc-Resumes t (omega arith) s.proc_count (omega arith) (omega arith)
            (ap is_ready (states s.proc_count) ∙ r)),
    )
