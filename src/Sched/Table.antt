-- ===== src/Sched/Table.antt =====
-- `init_process` of kernel/process/scheduler.c and the process table.
use native.Mathlib.Decide.{dec_lt}
use craybond_os.Base.{
  ℕ, ◌+◌, ◌≤◌, ◌<◌, ◌≡◌, ◌≢◌, refl, Option, none, some, true, arith, leb, ==_refl, ==_ne, leb_gt,
}
use craybond_os.Sched.{Scheduler, max_procs, init_process}

abbrev pub IsTable : Scheduler → Type 0
IsTable s = (s.proc_count ≤ max_procs) × ((i : ℕ) → i < s.proc_count → (s.processes i).id ≡ i)

-- What `init_process` may come to.
pub data InitResult (s : Scheduler) : Option ℕ × Scheduler → Type 0 where
  full : s.proc_count ≡ max_procs → InitResult s (none, s)
  added :
      {t : Scheduler}
      → s.proc_count < max_procs
      → t.proc_count ≡ s.proc_count + 1
      → t.current_proc ≡ s.current_proc
      → ((i : ℕ) → i ≢ s.proc_count → t.processes i ≡ s.processes i)
      → IsTable t
      → InitResult s (some s.proc_count, t)

-- On a table of at most `max_procs` entries whose identifiers are their indices, `init_process`
-- either finds the table full and changes nothing, or hands out the entry behind the last one: no
-- other entry changes, the current process stays, and the table is again such a table.
pub init_process-InitResult : (s : Scheduler) → IsTable s → InitResult s (init_process s)
unfolding init_process
init_process-InitResult s (bound, ids) = elim (dec_lt s.proc_count max_procs) [
  | yes less ↦ rw (leb_gt max_procs s.proc_count less) (
      added less refl refl (λ i other. rw (==_ne i s.proc_count other) refl)
        (
          omega arith,
          λ i below. elim (dec_lt i s.proc_count) [
            | yes q ↦ rw (==_ne i s.proc_count (omega arith)) (ids i q)
            | no q ↦ let e : i ≡ s.proc_count = omega arith in rw (e, ==_refl s.proc_count) refl
          ],
        ))
  | no more ↦ let e : leb max_procs s.proc_count ≡ true = ground arith in rw e (full (omega arith))
]
