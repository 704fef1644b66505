-- ===== src/Sched/Tests.antt =====
-- Runs of kernel/process/scheduler.c and kernel/process/kprocess_loader.c at concrete tables.
use craybond_os.Base.{ℕ, ◌+◌, ◌≡◌, refl, Bool, arith, if◌then◌else◌, ◌==◌, ltb, lt→ltb}
use craybond_os.Outcome.{Outcome, done}
use craybond_os.Sched.{
  State, ready, blocked, Process, Scheduler, Created, switch_proc, after, scan,
  create_kernel_process, resume,
}
use craybond_os.Sched.Round.{SwitchResult, switch_proc-SwitchResult}
use craybond_os.Sched.Fair.{Resumes, switch_proc-Resumes}
use craybond_os.Sched.Table.{IsTable}
use craybond_os.Sched.Create.{CreateResult, create_kernel_process-CreateResult}

-- Three processes, of which the second is blocked; the entries behind them are zeroed.
abbrev state_of : ℕ → State
state_of i = if i == 1 then blocked else ready

abbrev entry : ℕ → Process
entry i = record {
  regs = λ r. 0;
  sp = 0x2000;
  pc = if ltb i 3 then 0x1000 else 0;
  spsr = 0x3C5;
  id = if ltb i 3 then i else 0;
  state = state_of i;
}

abbrev three : Scheduler
three = record { processes = entry; current_proc = 0; proc_count = 3 }

three-IsTable : IsTable three
three-IsTable = (omega arith, λ i below. rw (lt→ltb i 3 below) refl)

-- An allocator that counts its calls, and one that finds no memory.
abbrev give : ℕ → Bool → ℕ → Outcome (ℕ × ℕ)
give size kernel calls = done (0x5000, calls + 1)

abbrev refuse : ℕ → Bool → ℕ → Outcome (ℕ × ℕ)
refuse size kernel calls = done (0, calls + 1)

switch_proc-test : (switch_proc three).1 ≡ resume 2
unfolding switch_proc after scan
switch_proc-test = refl

switch_proc-SwitchResult_example : SwitchResult three (switch_proc three)
switch_proc-SwitchResult_example = switch_proc-SwitchResult three (omega arith)

switch_proc-Resumes_example : Resumes 2 2 three
switch_proc-Resumes_example =
    switch_proc-Resumes three (omega arith) 2 (omega arith) (omega arith) refl

create_kernel_process-CreateResult_example :
    (r : Created × Scheduler) × (create_kernel_process give 0x8000 three 0 ≡ done (r.0, r.1, 1))
    × CreateResult three 0x8000 0x5000 r
create_kernel_process-CreateResult_example =
    create_kernel_process-CreateResult give 0x8000 three 0 1 three-IsTable 0x5000 refl
