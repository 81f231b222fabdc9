-- ===== src/Lib.antt =====
-- A model of the kernel ASNU of TerracottaOS, and what has been shown of it.
--
-- The kernel starts in `kmain` (ASNU/src/init.c), which surveys the memory map of the boot loader and
-- starts the physical memory manager on the two largest regions, then the page tables, the timer, the
-- interrupts and the scheduler. The timer's interrupt calls the scheduler, the keyboard's interrupt
-- feeds scan codes to the keyboard driver, and a page fault maps the page that it hit. All of them
-- share the memory and the ports.
--
-- Prelude, Prelude/*: the names that all modules share, Boolean tests, lists and integers over the
--   native numbers. Word, Word/*: arithmetic modulo 2 ^ 64, bits of a byte, joined bit fields.
-- Memory: the memory as a function from addresses to bytes, with 64-bit words in it.
-- Str (ASNU/src/string.c): the functions of that file as loops on that memory. Str/Block has memset,
--   memcpy, memmove and memcmp, Str/Strings the functions on strings: Texts says what a string in
--   memory is, and Length, Compare, Copy, Bounded (strncpy), Search (strchr, strrchr), Within (strstr)
--   and Token (strtok) what the functions do with it.
-- Pmm (ASNU/src/PMM/pmm.c): `State` is `*pmm_file` with the memory; `palloc`, `kalloc`, `kfree`,
--   `pmm_init`, `bitmap_set_bit`, `bitmap_clear_bit` are the functions of those names. Pmm/Bitmap has
--   the bitmap as a set of pages, Pmm/Alloc and Pmm/Free the calls, Pmm/Init the start, Pmm/Overrun
--   the bits past the end, Pmm/Count the number of free pages, Pmm/Trace sequences of calls by clients that own pages.
-- Io (ASNU/src/KiSimple.c): the ports of a bus, whose devices are a parameter, and `pa2va`, `va2pa`.
--   Io/Words has `insw`, `outsw` and `KiPanic`, Io/Words/Moved what `insw` moves.
-- Vmm (ASNU/src/VMM/vmm.c): `vmm_init`, `mmap`, `unmap` on the tables in memory. A function answers
--   `none` where the source writes through the `NULL` that `palloc` gave. Vmm/Entry has the entries,
--   Vmm/Tree and Vmm/Grow the tables as a graph with levels, Vmm/Walk the steps from table to table,
--   Vmm/Map what the last writes leave, Vmm/Mapped and Vmm/Unmapped the two functions as a
--   whole, Vmm/Others and Vmm/Cleared the other addresses,
--   Vmm/Init the start.
-- Boot (ASNU/src/init.c): the loop of `kmain` over the memory map and its call of `pmm_init`.
--   Boot/Regions has what the loop finds, Boot/Second maps for which it finds two regions or fails.
-- Start (ASNU/src/init.c): `kmain` as the order in which it starts the parts, behind its four tests, and
--   `test_sched`. A `Kernel` holds the states of the parts. Start/Pages and Start/Created have the
--   pages and the structures of the processes, Start/Pair their registration, Start/Processes
--   `test_sched`, Start/Turns and Start/Resumed the switches behind it, Start/Parts what
--   the other parts are like behind `kmain`, Start/Booted the whole of it.
-- Sched (ASNU/src/sched/scheduler.c, scheduler.h): `Sched` is the statics with the structures by
--   address; the functions keep their names. Sched/Data has the structures, Sched/Next the search,
--   Sched/Inv and Sched/Register the invariant, Sched/Create a new process, Sched/Fair the turns, Sched/Resume and Sched/Loads what is
--   restored.
-- Keyboard (ASNU/src/Drivers/PS2Keyboard/driver.c): the ring buffer and the decoder of scan codes.
--   Keyboard/Layout has the tables, Keyboard/Ring the buffer as a queue, Keyboard/Decode the decoder,
--   Keyboard/Getc reading, Keyboard/Gets a line: Edit says what a line is after the characters typed,
--   Line that `kbd_gets` leaves it.
-- Idt (ASNU/src/IDT/idt.c): the gates, `exception_handler`, and the two interrupt controllers.
--   Idt/Gate and Idt/Init have the gates, Idt/Pic the masks, Idt/Recovers `exception_handler`.
-- Pci (ASNU/src/PCI/pci.c, pci.h): configuration space by way of two ports, the searches for a device
--   and the tables of names (Pci/Names). Pci/Reads has the reads, Pci/Find and Pci/Ends the searches,
--   Pci/Address the address that is written to a port, Pci/Mmio `PciGetDeviceMMIORegion`: Space has
--   what is relied on where base addresses are written, Restored that they are put back, Region what
--   is found, Total what it leaves alone. Pci/Listing is `PciListDevicesAttached`: Spec
--   has the functions to be listed, Lists, Slots and Attached that they are.
-- Splash (ASNU/src/KiSimple.c): `DisplaySplash` with the functions of Str on its text. Splash/Lines has
--   the lines.
-- Gdt (ASNU/src/GDT/GDT.c, GDT.h): the table of segments. Gdt/Segment has the one of the gates.
-- Pit (ASNU/src/Drivers/PIT/driver.c): the timer. Pit/Tick has its frequency and its interrupt, which
--   runs `scheduler_tick` of Sched, Pit/Wait the waits.
-- Irq (ASNU/src/Drivers/PIT/driver.c and ASNU/src/IDT/idt.c): the two interrupts as the controller
--   delivers them, as steps of a system of timer, scheduler, keyboard and ports. Irq/Deaf has what
--   follows a switch, Irq/Typed how the interrupts end the wait of `kbd_getc`.
-- Xhci (ASNU/src/Drivers/XHCI/driver.c): the USB controller. Xhci/Start has `xHciInit`, Xhci/Handler
--   the interrupt.
-- Serial (ASNU/src/Serial/serial.c): the log. A function answers the characters sent, or nothing if it
--   leaves its array. Serial/Buffer has the array, Serial/Digits and Serial/Padding the loops on the
--   digits, Serial/Numbers, Serial/Signed and Serial/Long the numbers. Serial/Format is
--   `serial_fwrite` as a machine over the characters of the format: Spec has the parts of a format,
--   Pieces what each does, Line the whole line.
-- The modules named Tests hold the statements at concrete inputs.
--
-- Numbers are natural numbers, and 64-bit arithmetic keeps its wrap. A pointer is its address. A loop
-- with a counter recurs on the rounds that are left. The wait of `kbd_getc` recurs on the scan codes
-- that arrive, and it answers nothing if they end first. The search for a device recurs on the number
-- of buses that are searched, since the source's loop over them has no end of its own; with the bus
-- of a device below that number the search has come to it. The loops on strings take fuel, and as
-- much as the strings are long is enough; the digits of a number take 64 rounds, enough for 64 bits;
-- `kbd_gets` takes fuel for the characters typed, the waits of the timer and of the USB controller for
-- their reads, and each says how much is enough.
--
-- Not modelled: log lines and the echo of characters on the screen, which only print; printk, a library
-- of its own; the boot loader, but for the memory map and whether it answers; the terminal driver, which is not in
-- the repository; `proc0` and `proc1` but for their addresses, since they only count and print; assembly but for what it does
-- to the registers in a switch; interrupts at arbitrary points of a function. `KiMMap` and
-- `KiPicSendEoi`, which the USB driver calls and no file defines, are parameters. What the devices
-- behind the ports answer is a parameter too, with the hypotheses `HasMask` of Idt/Pic, `Answers` of
-- Pci/Reads, `Space` of Pci/Space, `HasCounter` of Pit/Tick, `HasPic` of
-- Irq, `HasCodes` of Irq/Typed and `HasParams` of Xhci/Start. The structures of processes are kept apart from the bytes
-- of the pages that hold them.
pub mod Prelude
pub mod Word
pub mod Memory
pub mod Str
pub mod Pmm
pub mod Io
pub mod Vmm
pub mod Boot
pub mod Start
pub mod Sched
pub mod Keyboard
pub mod Idt
pub mod Pci
pub mod Pit
pub mod Irq
pub mod Serial
pub mod Gdt
pub mod Splash
pub mod Xhci
