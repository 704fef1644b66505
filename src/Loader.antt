-- ===== src/Loader.antt =====
-- shared/process_loader.c: the copy of a program's code to a new address. Branches and ADRP
-- instructions hold displacements, and are rewritten to keep their targets.
use craybond_os.Base.{
  ℕ, zero, suc, ◌+◌, ◌-◌, ◌*◌, ◌/◌, ◌%◌, ◌^◌, Option, none, some, Bool, true, false, ltb, leb, ◌==◌,
  ◌&&◌, ◌||◌, if◌then◌else◌, u32, add32, sub64, add64, shr, shl32, shl64, sar32, sar64, sext32,
  bit_and, bit_or,
}
use craybond_os.Outcome.{Outcome, done, ◌>>=◌}
use craybond_os.Sched.{
  Scheduler, Process, Created, process, failed, null_write, ready, put, init_process,
}
pub mod Arm
pub mod Branch
pub mod Cond
pub mod Adrp
pub mod Copy
mod Tests

-- The arguments of `relocate_code`.
pub record Move : Type 0 where
  pub src_base : ℕ
  pub dst_base : ℕ
  pub size : ℕ
  pub src_data_base : ℕ
  pub dst_data_base : ℕ
  pub data_size : ℕ

-- The address of the instruction `i`; `i` and `i * 4` are of type `uint32_t`.
abbrev pub at : ℕ → ℕ → ℕ
at base i = add64 base (u32 (i * 4))

abbrev pub is_internal : Move → ℕ → Bool
is_internal m target = leb m.src_base target && ltb target (add64 m.src_base m.size)

-- B and BL.
pub branch_offset : ℕ → ℕ
branch_offset instr = shl32 (sar32 (shl32 instr 6) 6) 2

pub relocate_branch : Move → ℕ → ℕ → ℕ
unfolding branch_offset
relocate_branch m i instr =
    let target = add64 (at m.src_base i) (sext32 (branch_offset instr)) in
    if is_internal m target
    then instr
    else let rel = sar64 (sub64 target (at m.dst_base i)) 2 in
      bit_or (bit_and instr 0xFC000000) (bit_and rel 0x03FFFFFF)

-- B.cond.
pub cond_offset : ℕ → ℕ
cond_offset instr = shl32 (sar32 (shl32 (bit_and (shr instr 5) 0x7FFFF) 6) 6) 2

pub relocate_cond : Move → ℕ → ℕ → ℕ
unfolding cond_offset
relocate_cond m i instr =
    let target = add64 (at m.src_base i) (sext32 (cond_offset instr)) in
    if is_internal m target
    then instr
    else let rel = sar32 (u32 (sub64 target (at m.dst_base i))) 2 in
      bit_or (bit_and instr 0xFF00001F) (shl32 (bit_and rel 0x7FFFF) 5)

-- ADRP.
pub adrp_offset : ℕ → ℕ
adrp_offset instr =
    let immlo = bit_and (shr instr 29) 0x3 in
    let immhi = bit_and (shr instr 5) 0x7FFFF in
    sar64 (shl64 (bit_or (shl64 immhi 14) (shl64 immlo 12)) 43) 43

abbrev pub page : ℕ → ℕ
page a = bit_and a 0xFFFFFFFFFFFFF000

-- The rewritten instruction, for a target inside the data.
pub retarget_adrp : Move → ℕ → ℕ → ℕ → ℕ
retarget_adrp m i instr target =
    let data_offset = sub64 target m.src_data_base in
    let new_target = add64 m.dst_data_base data_offset in
    let new_offset = sub64 new_target (page (at m.dst_base i)) in
    let new_immhi = bit_and (sar64 new_offset 14) 0x7FFFF in
    let new_immlo = bit_and (sar64 new_offset 12) 0x3 in
    let low = u32 (bit_or (bit_and instr 0x9FFFFFFF) (shl64 new_immlo 29)) in
    u32 (bit_or (bit_and low 0xFF00001F) (shl64 new_immhi 5))

pub relocate_adrp : Move → ℕ → ℕ → ℕ
unfolding adrp_offset retarget_adrp
relocate_adrp m i instr =
    let target = add64 (page (at m.src_base i)) (adrp_offset instr) in
    if leb m.src_data_base target && ltb target (add64 m.src_data_base m.data_size)
    then retarget_adrp m i instr target
    else instr

-- The body of the loop.
pub relocate_instr : Move → ℕ → ℕ → ℕ
unfolding relocate_branch relocate_cond relocate_adrp
relocate_instr m i instr =
    let op = shr instr 26 in
    if (op == 5) || (op == 37)
    then relocate_branch m i instr
    else if shr instr 24 == 84
    then relocate_cond m i instr
    else if bit_and instr 0x9F000000 == 0x90000000
    then relocate_adrp m i instr
    else instr

-- Memory as bytes.
abbrev pub byte_of : ℕ → ℕ → ℕ
byte_of w k = w / 2 ^ (8 * k) % 2 ^ 8

pub read32 : (ℕ → ℕ) → ℕ → ℕ
read32 mem a = mem a + mem (a + 1) * 2 ^ 8 + mem (a + 2) * 2 ^ 16 + mem (a + 3) * 2 ^ 24

pub write32 : ℕ → ℕ → (ℕ → ℕ) → ℕ → ℕ
write32 a w mem x = if leb a x && ltb x (a + 4) then byte_of w (x - a) else mem x

-- `n` turns of the loop, from the instruction `i`.
pub relocate_loop : Move → ℕ → ℕ → (ℕ → ℕ) → ℕ → ℕ
unfolding read32 write32 relocate_instr
relocate_loop m zero i mem = mem
relocate_loop m (suc n) i mem =
    let instr = read32 mem (m.src_base + i * 4) in
    relocate_loop m n (i + 1) (write32 (m.dst_base + i * 4) (relocate_instr m i instr) mem)

pub relocate_code : Move → (ℕ → ℕ) → ℕ → ℕ
unfolding relocate_loop
relocate_code m mem = relocate_loop m (m.size / 4) 0 mem

-- The copy of the data, byte by byte.
pub copy_data : (data_base dest n i : ℕ) → (ℕ → ℕ) → ℕ → ℕ
copy_data data_base dest zero i mem = mem
copy_data data_base dest (suc n) i mem =
    copy_data data_base dest n (i + 1) (λ x. if x == dest + i then mem (data_base + i) else mem x)

-- What `create_process` writes into its entry at the end.
start_process : Option ℕ → (code_dest stack : ℕ) → Scheduler → Created × Scheduler
start_process none code_dest stack s = (null_write, s)
start_process (some i) code_dest stack s =
    let p = record (s.processes i) {
      sp = add64 stack 0x1000;
      pc = code_dest;
      spsr = 0;
      state = ready;
    } in
    (process i, record s { processes = put s.processes i p })

-- `alloc_proc_mem` works on the page tables, of type `A`, and on the memory.
module _ {A : Type 0} (alloc_proc_mem : ℕ → Bool → A × (ℕ → ℕ) → Outcome (ℕ × A × (ℕ → ℕ))) where
  create_process :
      (func code_size data_base data_size : ℕ)
      → Scheduler
      → A × (ℕ → ℕ)
      → Outcome (Created × Scheduler × A × (ℕ → ℕ))
  unfolding copy_data relocate_code start_process
  create_process func code_size data_base data_size s a =
      let (proc, s1) = init_process s in
      alloc_proc_mem data_size false a >>= λ (data_dest, a1, mem1).
      if data_dest == 0
      then done (failed, s1, a1, mem1)
      else let mem2 = copy_data data_base data_dest data_size 0 mem1 in
        alloc_proc_mem code_size false (a1, mem2) >>= λ (code_dest, a2, mem3).
        if code_dest == 0
        then done (failed, s1, a2, mem3)
        else let move : Move = record {
          src_base = func;
          dst_base = code_dest;
          size = u32 code_size;
          src_data_base = data_base;
          dst_data_base = data_dest;
          data_size = u32 data_size;
        } in
          let mem4 = relocate_code move mem3 in
          alloc_proc_mem 0x1000 false (a2, mem4) >>= λ (stack, a3, mem5).
          if stack == 0
          then done (failed, s1, a3, mem5)
          else let (r, s2) = start_process proc code_dest stack s1 in done (r, s2, a3, mem5)
