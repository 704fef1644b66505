-- ===== src/Irq.antt =====
-- kernel/gic.c and `start_scheduler` of kernel/process/scheduler.c: the interrupt controller, the
-- timer, and the interrupt that switches between the processes. The registers of the controller lie
-- in a memory of bytes; those of the timer are a record. The saving of the registers of the
-- interrupted process is an argument.
use craybond_os.Base.{ℕ, ◌+◌, ◌*◌, ◌/◌, ◌^◌, Bool, false, true, ◌==◌, if◌then◌else◌, u64, bit_or}
use craybond_os.Mem.{Memory, read32, write8, write16, write32}
use craybond_os.Sched.{Scheduler, After, return, switch_proc}
pub mod Gic

abbrev pub gicd_base : ℕ
gicd_base = 0x08000000

abbrev pub gicc_base : ℕ
gicc_base = 0x08010000

abbrev pub irq_timer : ℕ
irq_timer = 30

-- The registers of the distributor for the timer: enable, target, priority.
unfoldable pub set_up_timer_line : Memory → Memory
set_up_timer_line mem =
    let flag = read32 (gicd_base + 0x100) mem in
    let enabled = write32 (gicd_base + 0x100) (bit_or flag (2 ^ 30)) mem in
    write32 (gicd_base + 0x400 + 28) 0 (write32 (gicd_base + 0x800 + 28) (2 ^ 16) enabled)

unfoldable pub gic_init : Memory → Memory
gic_init mem =
    let off = write8 gicc_base 0 (write8 gicd_base 0 mem) in
    let masked = write16 (gicc_base + 4) 0xF0 (set_up_timer_line off) in
    write8 gicd_base 1 (write8 gicc_base 1 masked)

-- `_msecs` and the registers `cntp_tval_el0`, `cntp_ctl_el0` and `cntkctl_el1`.
pub record Timer : Type 0 where
  pub msecs : ℕ
  pub tval : ℕ
  pub ctl : ℕ
  pub kctl : ℕ

-- `freq` is the register `cntfrq_el0`.
unfoldable pub timer_reset : (freq : ℕ) → Timer → Timer
timer_reset freq t = record t { tval = u64 (freq * t.msecs) / 1000 }

unfoldable pub timer_enable : Timer → Timer
timer_enable t = record t { ctl = 1; kctl = 1 }

unfoldable pub timer_init : (freq msecs : ℕ) → Timer → Timer
unfolding timer_reset timer_enable
timer_init freq msecs t = timer_enable (timer_reset freq (record t { msecs = msecs }))

-- What the interrupt handler and the start of the scheduler work on.
pub record Machine : Type 0 where
  pub mem : Memory
  pub timer : Timer
  pub scheduler : Scheduler
  pub interrupts : Bool

-- `save` is what `save_context_registers` and `save_return_address_interrupt`, which are assembly,
-- do to the table.
unfoldable pub irq_el1_handler :
    (save : Scheduler → Scheduler) (freq : ℕ) → Machine → Machine × After
unfolding timer_reset
irq_el1_handler save freq m =
    let saved = record m { scheduler = save m.scheduler } in
    let irq = read32 (gicc_base + 0xC) saved.mem in
    let ended = write32 (gicc_base + 0x10) irq saved.mem in
    let (s, next) = switch_proc saved.scheduler in
    if irq == irq_timer
    then (record saved { timer = timer_reset freq saved.timer; mem = ended; scheduler = s }, next)
    else (saved, return)

unfoldable pub start_scheduler : (freq : ℕ) → Machine → Machine × After
unfolding timer_init
start_scheduler freq m =
    let (s, next) = switch_proc m.scheduler in
    (record m { interrupts = false; timer = timer_init freq 10 m.timer; scheduler = s }, next)
