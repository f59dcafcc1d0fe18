-- ===== src/Lib.antt =====
-- Verification library of GunwOS, a 32-bit operating system for the i386 in C.
--
-- The kernel (src/system/kernel) takes interrupts and system calls, queues the work that they lead
-- to, and gives the processor to one of five processes when nothing is queued. Events for a process
-- go through the process's run loop. Processes talk by queries to listeners, which are such events;
-- a sender that expects a reply is locked until it is given.
--
-- Files and what they model:
--   Prelude, Prelude/*  Tests on numbers, arrays, scans, lists, signed identifiers, and Outcome: a
--                       routine returns (ok), stops in OOPS (oops), runs out of fuel (hang), or
--                       does what C leaves undefined (fault).
--   Queue               src/system/kernel/queue/queue.c: dispatch, the loop of k_que_start.
--   Queue/*             The chain of slots, and its meaning as a list of calls.
--   Runloop             src/system/kernel/runloop/runloop.c: reserve, dispatch, fetch, cleanup.
--   Runloop/*           The ring of slots, and its meaning as a list of events.
--   Kernel              The state that the kernel's files share.
--   Schedule            src/system/kernel/schedule/schedule.c; Schedule/RoundRobin on procSelect, and
--                       Schedule/Fairness on procSelect over time.
--   Proc                src/system/kernel/hal/proc/proc.c: the process table; Proc/Switch the switches
--                       between kernel and processes, with the callers in schedule.c.
--   Proc/*              Invariant and Context: each routine keeps the table consistent. Scheduled: what
--                       it leaves alone. Callback: the delivery of an event. Resume: the switches.
--                       Reach: steps and reachable states.
--   Timer, Timer/Drift  src/system/kernel/timer/timer.c: ticks and milliseconds.
--   Text, Text/*        src/lib/stdgunw: length and comparison of strings, the search for a string
--                       (Find), and numbers as text (Numbers, Numbers/RoundTrip).
--   Ipc                 src/system/kernel/ipc/data.h and the paths of utility.c. Ipc/Registration:
--                       registration.c. Ipc/Bindings: binding.c. Ipc/Delivery and Ipc/Send: delivery.c,
--                       ipc.c. Ipc/Reply: reply.c. Ipc/Paths, Ipc/Listeners and Ipc/Bindings/Lookup are
--                       about paths, the search for listeners and the table of bindings.
--   Fat12               src/system/kernel/driver/fat12/fat12.c, with model.h beside it: the header, the
--                       table, the directory entry. Fat12/Detect: detection. Fat12/Search: the search
--                       for a file. Others of Fat12/*: the packing of entries, the geometry, the
--                       sectors of a file, the found entry, the rounding of sizes.
--   Dev, Dev/*          src/system/kernel/dev/dev.c: the table of devices (Dev), their use by processes
--                       (Access), events (Emit). Descriptor and Errors: src/system/api/driver and the
--                       codes. Event: the bytes of an event, src/system/api/app/src/gunwdev.c. Invariant,
--                       Started, Preserve, Reach: the consistent table. Hold, Notify: who may use a
--                       device, and whom its events reach. Cleanup: the end of a process.
--   Hal                 src/system/kernel/hal/hal.c: the registry of interrupts and their service.
--   Paging, Paging/*    src/system/kernel/hal/paging/paging.c: pages and tables; Assign, Release and
--                       Setup: its calls. Invariant, Preserve, Isolation: the entries stay apart.
--   Mem, Mem/*          src/system/kernel/hal/mem/mem.c: requests (Request), buffers (Zone), and the
--                       loops that clear and copy memory (Contents).
--   Storage, Storage/*  src/system/kernel/storage: drives and the bytes of a volume (Bytes), the file
--                       systems (FileSystem), volumes and their detection (Volumes), and the load of
--                       a file (File, with the children Within, Chain, Sizes, Content,
--                       Names, and Clusters and OnFat12, where FAT12 serves the load);
--                       src/system/api/app/src/gunwstor.c: the addresses of sectors (Address).
--   Sessions, Sessions/*  src/system/user/gnwdispm and gnwkbdm: the stacks of sessions (Stack), the
--                       search for a session (Slots), the display manager (Display: Kept, Attach,
--                       Reach, Choice; Kernel: the routines of the kernel that it calls) and the
--                       keyboard manager (Keyboard: Kept, Events).
--   Heap, Heap/Alias    src/system/api/app/src/gunwmem.c: the heap of a process.
--   Shell, Shell/*      src/system/user/gnwsh: the command line; the tables of keys (Keymap) and of
--                       characters (Charset). Line, Keys, Command: the line that is typed and run.
--   Elf, Elf/Accepted   src/lib/gunwelf: the check of a program file.
--   Start, Start/*      src/system/kernel/syscall/usr/start.c: the start of a program, with the calls of
--                       the storage as an interface (Services) on the process table and the page
--                       tables (Failure).
--   Syscall, Syscall/*  src/system/kernel/hal/syscall/{params,usrfunc}.c and kernel/syscall/usr: calls
--                       on devices and memory, and on messages and run loops (Messages), from the
--                       stack of the caller on. Buffer, Pending: the buffers that they are given.
--   Tests, Tests/*      Runs of the theorems on small states.
--
-- State and names: C functions keep their names in lower case with underscores; static variables are
-- fields of records; pointers into static arrays are slot numbers; fixed arrays are functions of the
-- index. Registers and counters are natural numbers with the wrap-around at 32 bits written out.
-- Interrupt handlers are taken to run one at a time, as the critical sections of the code are meant
-- to ensure.
--
-- Fuel and bounds: the walk to the last queue entry has 64 steps, one for each slot, which suffices as
-- the entries of a well-formed chain are distinct slots. The loop without end of k_que_start is run
-- for any given number of rounds. The loop over the listeners of a path has one round more than there
-- are listeners, and moves on in each. The search in a string has two rounds for each character, one to
-- break off a match and one to go on, and two more. A word has at most 32 digits in a base of two or
-- more. Each loop of the load of a file has a round for each allocation unit: every round reads one.
-- Scans of arrays are by structural recursion.
--
-- Not modelled: hardware access (ports, descriptor tables, the floppy controller, the display),
-- screen output, the assembly of the bootloader and of the interrupt entry, and, of the kernel's own
-- logic, the way from an address through the page tables to the contents of memory, which is a
-- parameter where these are read or written, and the other system calls,
-- which stand on top of the parts above.
pub mod Prelude
pub mod Text
pub mod Fat12
pub mod Mem
pub mod Paging
pub mod Dev
pub mod Hal
pub mod Storage
pub mod Sessions
pub mod Heap
pub mod Shell
pub mod Elf
pub mod Start
pub mod Syscall
pub mod Ipc
pub mod Queue
pub mod Runloop
pub mod Kernel
pub mod Schedule
pub mod Proc
pub mod Timer
pub mod Tests
