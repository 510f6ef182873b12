-- ===== src/Lib.antt =====
-- xv6 with demand paging: the kernel of xv6-riscv/ with pages that are loaded from the program on
-- the first access, kept in a swap file when memory is full, and evicted in the order in which
-- they became resident. All paths below are under xv6-riscv/.
--
-- The parts and their files:
-- - Base: tests, lists over native numbers, bits of a byte, and results. A kernel function
--   returns a value and a state, or panics; `panic` of kernel/printf.c does not return.
--   Base/Triple has rules for conditions before and after a computation.
-- - Memory: physical memory as bytes by address, with 64-bit little-endian words.
-- - Cstring and Cstring/Text: kernel/string.c; the proofs are in Cstring/Moves, Cstring/Text/Laws
--   and Cstring/Text/Safe.
-- - Riscv: constants and address macros of kernel/riscv.h and kernel/memlayout.h.
-- - Kalloc: kernel/kalloc.c, with the free list in the free pages themselves. Kalloc/FreeList has
--   the list of pages that the memory holds, Kalloc/Range the initial list.
-- - Vm and Vm/Uvm: the page tables of kernel/vm.c in memory (`walk`, `mappages`, `uvmunmap`) and
--   the user address spaces on them (`uvmalloc`, `uvmcopy`, `freewalk` and the others); Vm/Kvm is
--   the kernel's own table, with `proc_mapstacks` of kernel/proc.c. Vm/Lookup and Vm/Mapping hold
--   the proofs.
-- - Paging: the tables of one process (kernel/paging.h), `init_paging_info`, the copy in `kfork`
--   of kernel/proc.c and the choice of a victim. Paging/Slots is the bitmap of swap slots,
--   Paging/Kernel the state that the paging code of kernel/vm.c works on, Paging/Swap the
--   swapping, Paging/Fault the page faults and the checks for system calls, Paging/Copy the
--   copies between the kernel and user memory. Paging/Fifo, Paging/Tables, Paging/Fork and the modules
--   named Keeps, Laws, Alloc, Outcome and Strings hold the proofs.
-- - Log: kernel/log.c. The disk takes whole blocks in the order of the calls and stops when the
--   power fails. Log/Writes, Log/Install and Log/Crash treat the commit and the recovery,
--   Log/Space the reservation of room.
-- - Sleeplock: kernel/sleeplock.c. Bio: kernel/bio.c, with the ring of buffers as a list in the
--   order of use; Bio/Keys, Bio/Lookup and Bio/Reach hold the proofs.
-- - Proc: the process table of kernel/proc.c. Proc/Life has the calls that begin and end a process
--   (`allocproc`, `kfork`, `kexit`, `kwait`, `growproc`), Proc/Sched those that give up the CPU or
--   get it, Proc/Run processes and CPUs together as steps, and Proc/Boot the table at the start.
--   The other modules below Proc hold the proofs.
-- - File: the reference counts of kernel/file.c with the descriptors of kernel/sysfile.c and the
--   loops over them in `kfork` and `kexit`, and `pipealloc` of kernel/pipe.c; the modules below it
--   hold the proofs.
-- - Fs: kernel/fs.c with the formats of kernel/fs.h and the inodes of kernel/file.h. Fs/Blocks is the
--   bitmap, Fs/Inodes the table of inodes and their places on the disk, Fs/Content what is in them
--   (`bmap`, `itrunc`, `readi`, `writei`, `iput`), Fs/Path the element of a path, and Fs/Dirs the
--   directories and the walk along a path. The modules below these hold the proofs. A block is what
--   the buffer cache holds of it, as bytes; the copies from and to a user are a parameter.
-- - Exec: `kexec` of kernel/exec.c with kernel/elf.h, on the state of Paging/Kernel.
--   Exec/Format has the headers; Exec/Segments and Exec/Stack hold the proofs.
-- - Sysproc: `sys_sbrk` and `sys_memstat` of kernel/sysproc.c with kernel/memstat.h;
--   Sysproc/Bounds and Sysproc/Memstat hold the proofs.
-- - Trap: `usertrap` of kernel/trap.c, which hands page faults on, and `syscall` of kernel/syscall.c,
--   with the calls of its table and what interrupts do as parameters; Trap/Ends holds the proofs.
-- - Grep: the matcher of user/grep.c; Grep/Language says what an expression matches.
-- - Pipe: kernel/pipe.c; Pipe/Queue and Pipe/Transfer relate the ring to a queue of bytes.
-- - Console: the ring of typed characters of kernel/console.c; Console/Ring and Console/Reads hold
--   the proofs.
-- - Examples: runs at concrete inputs.
--
-- How they interact: the paging code calls the page tables, these the allocator, and the
-- allocator the memory routines, all on one machine state. The paging code calls the file system
-- through the record FileSystem of Paging/Kernel: the functions of kernel/fs.c and kernel/file.c
-- that it uses are a parameter there, of which nothing is assumed. The process table uses the allocator and the page
-- tables, and leaves the open files to File and the paging tables to Paging. Results that are 0 or -1 in the
-- source are `true` or `false`; null pointers are 0 in memory and `none` in records.
--
-- Loops with a fixed count recurse on that count. `freerange`, `uvmalloc` and `uvmcopy` recurse
-- on fuel: the length of the range in bytes and one more, which is enough as each round goes a
-- page further. The loops of `copyout`, `copyin` and `copyinstr` recurse on the length, as a
-- round copies a byte at least, and that of `strlen` on any fuel beyond the index of the NUL.
-- `freewalk` recurses on the level of the table, three for a root. The loops over the bits and blocks
-- of the bitmap, the table of inodes and the addresses of an inode recurse on their count; those of
-- `readi` and `writei` on the number of bytes and one more, those over a directory on its size and one
-- more, and that of `namex` on the length of the path and one more, which is enough as a round takes
-- a byte, an entry or an element at least. A sequence number counts up
-- from 1 in an `int`, and is taken to stay below 2^31. Where the next process number would overflow, and
-- where a null pointer is used, the model stops as at a panic, as C does not define what follows.
--
-- Locks make each call one step, up to the point where it sleeps; other processes and interrupts
-- do not change the state in between. Where the order of the calls matters, in Proc/Run, Bio/Reach
-- and Log/Space, it is a sequence of steps. `printf` lines are left out. Not modelled: the
-- spin locks, reading and writing through a file descriptor, the system calls on paths,
-- the traps from the kernel, and the other user programs and their library; the devices, the
-- registers and the assembly, whose behaviour is that of the hardware. A call that would sleep for the
-- lock of an inode for good, as nothing else runs, ends in `asleep`.
pub mod Base
pub mod Memory
pub mod Cstring
pub mod Riscv
pub mod Kalloc
pub mod Vm
pub mod Paging
pub mod Log
pub mod Sleeplock
pub mod Bio
pub mod Proc
pub mod File
pub mod Exec
pub mod Trap
pub mod Sysproc
pub mod Fs
pub mod Grep
pub mod Pipe
pub mod Console
pub mod Examples
