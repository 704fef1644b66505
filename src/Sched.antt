-- ===== src/Sched.antt =====
-- kernel/process/scheduler.c and kernel/process/kprocess_loader.c: the process table, the
-- round-robin switch, and the creation of a kernel process. The table starts zeroed, and 0 is the
-- state READY. `restore_context` leaves by `eret`; the model says which process it resumes.
use craybond_os.Base.{
  ℕ, zero, suc, ◌+◌, ◌-◌, ◌%◌, Option, none, some, Bool, true, false, ltb, leb, ◌==◌, if◌then◌else◌,
  add64,
}
use craybond_os.Outcome.{Outcome, done, ◌>>=◌}
pub mod Round
pub mod Fair
pub mod Table
pub mod Create
mod Tests

-- The enum of `process_t`.
pub data State : Type 0 where
  ready running blocked : State

pub record Process : Type 0 where
  pub regs : ℕ → ℕ
  pub sp : ℕ
  pub pc : ℕ
  pub spsr : ℕ
  pub id : ℕ
  pub state : State

abbrev pub max_procs : ℕ
max_procs = 16

-- The globals of scheduler.c.
pub record Scheduler : Type 0 where
  pub processes : ℕ → Process
  pub current_proc : ℕ
  pub proc_count : ℕ

abbrev pub is_ready : State → Bool
is_ready ready = true
is_ready running = false
is_ready blocked = false

-- How the `while` loop of `switch_proc` ends: at a ready process, back at the current one, or not
-- within the fuel.
pub data Scan : Type 0 where
  found : ℕ → Scan
  around : Scan
  endless : Scan

pub scan : ℕ → Scheduler → ℕ → Scan
scan zero s next_proc = endless
scan (suc fuel) s next_proc =
    let next = (next_proc + 1) % s.proc_count in
    let rest = scan fuel s next in
    if is_ready (s.processes next_proc).state
    then found next_proc
    else if next == s.current_proc
    then around
    else rest

-- What follows a call of `switch_proc`: the process `n` runs on, the caller goes on, or the loop
-- does not end.
pub data After : Type 0 where
  resume : ℕ → After
  return : After
  spin : After

pub after : Scheduler → Scan → Scheduler × After
after s (found n) = (record s { current_proc = n }, resume n)
after s around = (s, return)
after s endless = (s, spin)

pub switch_proc : Scheduler → Scheduler × After
switch_proc s =
    if s.proc_count == 0
    then (s, return)
    else after s (scan (suc s.proc_count) s ((s.current_proc + 1) % s.proc_count))

pub get_current_proc : Scheduler → ℕ
get_current_proc s = s.current_proc

abbrev pub put : (ℕ → Process) → ℕ → Process → ℕ → Process
put f i p j = if j == i then p else f j

-- `init_process`: the index of the new slot, or the null pointer.
pub init_process : Scheduler → Option ℕ × Scheduler
init_process s =
    let i = s.proc_count in
    if leb max_procs i then (none, s) else (
      some i,
      record s {
        processes = put s.processes i (record (s.processes i) { id = i });
        proc_count = i + 1;
      },
    )

-- What `create_kernel_process` returns: a process, 0, or nothing, since it writes through the null
-- pointer.
pub data Created : Type 0 where
  process : ℕ → Created
  failed : Created
  null_write : Created

stack_size : ℕ
stack_size = 0x1000

start_kernel_process : Option ℕ → (func stack : ℕ) → Scheduler → Created × Scheduler
unfolding stack_size
start_kernel_process none func stack s = (null_write, s)
start_kernel_process (some i) func stack s =
    let p = record (s.processes i) {
      sp = add64 stack stack_size;
      pc = func;
      spsr = 0x3C5;
      state = ready;
    } in
    (process i, record s { processes = put s.processes i p })

-- `alloc_proc_mem` works on the page tables, of type `A` here; it returns 0 if it finds no memory.
module _ {A : Type 0} (alloc_proc_mem : ℕ → Bool → A → Outcome (ℕ × A)) where
  pub create_kernel_process : ℕ → Scheduler → A → Outcome (Created × Scheduler × A)
  unfolding start_kernel_process
  create_kernel_process func s a =
      let (proc, s1) = init_process s in
      alloc_proc_mem stack_size true a >>= λ (stack, a1).
      if stack == 0
      then done (failed, s1, a1)
      else let (r, s2) = start_kernel_process proc func stack s1 in done (r, s2, a1)
