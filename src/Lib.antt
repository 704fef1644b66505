-- ===== src/Lib.antt =====
-- Craybond OS: the logic of the kernel, a small operating system for the Arm architecture, in C.
--
-- Parts, and the files that model them. Each file is named after a part, and the files below it hold
-- its theorems and, in Tests, runs at concrete inputs.
--   Base, Outcome   numbers, bits, lists and words; how a call ends (a value, a panic, no end).
--   Kstring         kernel/kstring.c: strings and the formatter `string_format_args`. A text is the list
--                   of its bytes.
--   Alloc           kernel/ram_e.c: `talloc`, `temp_free`, `palloc`. `Heap` holds the memory as 64-bit
--                   words, the free list and the two bump pointers.
--   Mem             kernel/ram_e.c: the accesses to memory and to registers of devices, `read8` to
--                   `write64`, over a memory of bytes.
--   Sched           kernel/process/scheduler.c and kernel/process/kprocess_loader.c: `Scheduler` holds
--                   the table; `switch_proc`, `init_process`, `create_kernel_process`.
--   Loader          shared/process_loader.c: `relocate_code`, instruction by instruction, and
--                   `create_process`, over a memory of bytes. Loader.Arm says what the instructions
--                   mean to the processor.
--   Paging          kernel/mmu.c and kernel/process/proc_allocator.c: the page tables in the memory of
--                   Alloc, with tables from `palloc`; Paging.Tables says what the processor reads there,
--                   and Paging.Init is `mmu_init`.
--   Screen          kernel/graph/drivers/ramfb_driver/ramfb_driver.c; Screen.Driver is its `rfb_init`,
--                   Screen.Gpu is kernel/graph/graphics.c, with the interface `VirtioGpu` of a driver.
--   Virtio          kernel/graph/drivers/virtio_gpu_pci/virtio_gpu_pci_driver.c: `Vgp` holds its
--                   variables, the memory and the device. Virtio itself has the queue and
--                   `vgp_send_command`, Virtio.Command the commands, Virtio.Setup the search for the
--                   capabilities, `vgp_start` and `vgp_init`.
--   Pci             kernel/pci.c: the addresses of configuration space, `find_pci_device`, `find_rsdp`.
--   Serial          kernel/console/serial/uart.c: the bytes that are sent, and the interrupts, which some
--                   functions switch.
--   Console         kernel/console/kconsole/kconsole.cpp: `KernelConsole` holds the ring of rows, the
--                   place of the next character, the graphics and the heap. Console.Terminal is the
--                   terminal that it refines: a list of rows without a ring, and what has been drawn of
--                   them by Console.Picture.
--   Kio             kernel/console/kio.c and kernel/console/kconsole/console.cpp: `kprintf_args`.
--   Trap            kernel/exception_handler.c and kernel/process/syscall.c: panics, exceptions and the
--                   call of a process that prints.
--   Irq             kernel/gic.c and `start_scheduler` of kernel/process/scheduler.c: the interrupt
--                   controller, the timer, and the interrupt that switches between processes; what
--                   the saving of the context does is an argument (`save`).
--   Ram             kernel/ram_e.c from `memcmp` to the size of the memory, and kernel/dtb.c, the device
--                   tree that it is read from, over a memory of bytes. The variable `hdr` of dtb.c is
--                   an argument, which nothing but `dtb_get_header` sets.
--   Disk            kernel/filesystem/disk.c: the disk in the device tree.
--   Fw              kernel/fw/fw_cfg.c: the files of the firmware. Fw.Ramfb joins their search with
--                   `rfb_init` of Screen.Driver, as the driver does.
--   Dma             kernel/dma.c: the copy of a block.
--   Boot            kernel/kernel_processes/bootscreen.c: the process that draws the start.
-- Paging, Screen.Driver and Virtio call `palloc` of Alloc; Console calls `talloc` of it and draws with
-- Screen.Gpu; Kio joins Kstring, Alloc, Serial and Console, and Trap and Boot stand on Kio and
-- Screen.Gpu; Irq joins Mem and Sched; Disk scans the tree with Ram. Sched and Loader take the allocator
-- of process memory as an argument, and Screen.Gpu the VirtIO driver, for which Virtio has a value
-- (`virtio_driver`); Loader uses the table of Sched.
--
-- Numbers are natural numbers with the wrap-around of C's types written out; an `int` is held by
-- its bits. A loop whose end is not plain from its text takes fuel: the walk of `talloc` (one round
-- more than there are free blocks is enough), `switch_proc` (one round more than there are
-- processes), the loop of `rfb_draw_line` (one round more than the larger distance), the ranges of
-- `mmu_init` (one round more than the steps that reach the last address), the capabilities of a PCI
-- device (one round more than there are), the frames of the boot screen (one is enough), the search
-- of `alloc_proc_mem` (one round more than there are candidates), and `dtb_scan`. A device is an
-- argument `react`, one turn of it on its own state and the memory; a loop that waits for it takes
-- as many looks (`polls`) as an argument says, and the device has a turn with each.
--
-- Not modelled: the messages of `kprintf` in the code of the other modules, and what they allocate;
-- assembly, the flushes of the TLB; what stands behind the `return` of `find_pci`; the loops that
-- only wait; and the parts of the kernel that no file above names. The bytes of the console and the
-- words of the allocators are memories of their own (`bytes` and `heap` of Console), so that a
-- block freed by the console and a list of free blocks cannot lie on each other as they can in the
-- program. What C leaves undefined is an argument (`uxn` and `unset` in Paging) or a result of its
-- own (`null_write` in Sched).
pub mod Base
pub mod Kstring
pub mod Outcome
pub mod Alloc
pub mod Sched
pub mod Loader
pub mod Paging
pub mod Screen
pub mod Serial
pub mod Console
pub mod Mem
pub mod Pci
pub mod Virtio
pub mod Kio
pub mod Boot
pub mod Trap
pub mod Irq
pub mod Fw
pub mod Dma
pub mod Disk
pub mod Ram
