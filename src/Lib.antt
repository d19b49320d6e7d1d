-- ===== src/Lib.antt =====
-- A verification library for octox, a teaching kernel in Rust in the manner of xv6.
--
-- The kernel (src/kernel) runs processes on several processors over a file system with a
-- write-ahead log. A system call enters through trap.rs and syscall.rs and works on files
-- (file.rs), pipes (pipe.rs), the console (console.rs) and the table of processes (proc.rs). Files
-- live in inodes and blocks (fs.rs); an operation on them is bracketed by begin_op and end_op of the
-- log (log.rs), which reads and writes blocks through the buffer cache (bio.rs), and the
-- cache asks the disk driver (virtio_disk.rs). Processes wait for each other by sleep and wakeup
-- of proc.rs, under spin locks, and data that many read is under the lock of rwlock.rs.
--
-- The files, and what in the source they model:
--   Base: names of the libraries passed on, Boolean tests, lists and maps over native numbers, and
--     `Outcome`, the result of code that may panic (a panic!, a failed assert!, an index out
--     of range, an overflow with checks on).
--   Log: src/kernel/log.rs. Log.Defs has the state of `Log` and of the disk below it and one
--     function per operation (read_head, write_head, install_trans, write_log, commit, recover,
--     begin_op, end_op, write). Blocks are lists of words; the buffer cache enters by
--     its contents, its pins, the order of its disk writes and the test of BufGuard::write, which makes
--     every write of the log panic as it stands: the flag `refuses` is that test, and the protocol
--     of the log is stated for its repair. Commit and Recovery are about crashes
--     after any disk write, Admission about the room that begin_op reserves, Absorb about the set of
--     logged blocks.
--   Bio: src/kernel/bio.rs. The `Lru` list as nodes with `next` and `prev`, and `add`, `get`,
--     `relse`, `pin`, `unpin`, the drop of a guard and `read`; the locks of buffers
--     are an argument of `get`. Chain says when the links agree with
--     a sequence of nodes; Walk, Get and Release use it; Faults has what goes wrong at
--     the ends of the list.
--   Console: src/kernel/console.rs. The ring of input bytes with 64-bit indices that wrap, `intr`
--     with its editing keys, `read` and `write`. Ring and Edit relate it to lists of bytes.
--   Virtio: src/kernel/virtio_disk.rs. Descriptors and their allocation, the request that `rw` formats,
--     its wait and its end, and `intr` with the used ring. The device is a step that writes
--     the used ring and the status bytes.
--   Proc: src/kernel/proc.rs. The states of processes, sleep, wakeup, kill, alloc_proc, exit,
--     reparent, wait and the look of the scheduler at a process, on a list of processes.
--   Rwlock: src/kernel/rwlock.rs. The two atomic words and the atomic steps of each thread, in any
--     interleaving.
--   Channel: src/kernel/mpmc.rs over src/kernel/semaphore.rs. Bounded channels: the steps of senders
--     and receivers, in any interleaving.
--   Once: src/kernel/sync.rs. The state word of `Once` and the atomic steps of its callers.
--   Layout: src/kernel/memlayout.rs. Kernel stacks and the registers of the harts.
--   Intr: src/kernel/proc.rs. The nesting of IntrLock on one processor.
--   Mode: src/kernel/fcntl.rs. Open modes and their flags.
--   Uart: src/kernel/uart.rs. The ring of bytes to send, with 64-bit indices that wrap.
--   Vm: src/kernel/vm.rs, PageTable::walk, walkaddr and mappages, and Uvm::copyin and copyout. A page
--     of a table is named by its address and holds 64-bit words; the allocator is the list of the
--     pages that it will hand out, and fails at its end. For copies, walkaddr is a parameter and
--     memory a byte at each physical address. Tree says when tables form a tree.
--   Files: src/kernel/file.rs, src/kernel/pipe.rs and the descriptors of src/kernel/syscall.rs. An Arc
--     is a number with a strong count. A drop of a file is two steps, the look at the count and
--     the end of the reference, and the steps of all processes interleave. What create and namei
--     find is an argument of the opening of a path.
--   Fs: src/kernel/fs.rs, the bitmap of blocks, the block map of an inode, its read
--     (Defs, Read), inodes on the disk (Inode), the table of inodes in memory (Table), whose
--     put is two steps since it gives up the lock between them, and path names (Path). A block is
--     1024 bytes by its number, and the indirect block is read as 32-bit words, the low byte
--     first; what the log has yet to write is seen by later reads. The theorems are about a bitmap
--     of one block, which is what a file system of FSSIZE blocks has. either_copyout is a parameter
--     of the read, and what the lock of an inode and dirlookup say, panics
--     included, is one of the walk over a path. LOG.write is taken to return, and reads past the end
--     of the disk too; the bits of the bitmap are those that bblock leads to.
--   Buddy: src/kernel/buddy.rs over src/kernel/list.rs, after the initialisation. Defs has the bit vectors bit
--     by bit, with the length in bytes that the source gives them, and each free list as the sequence of
--     its addresses. Nodes says which tree of blocks the bits and lists stand for; Split, Merge, Give and
--     Free follow one round of a loop, and then alloc and dealloc, on that tree. Links has the circles
--     of list.rs in one memory for all sizes; Ring, Circles and Lists relate them to sequences.
--   Lock: src/kernel/spinlock.rs and src/kernel/sleeplock.rs. The word of a spin lock, and the owner of a
--     sleep lock, whose steps are what a process does under the spin lock inside.
--
-- Bounds and fuel. Walks over the linked list of Bio have fuel, since the links can form a cycle:
-- the length of the list is enough on a well-formed one. The loops over descriptors and over the used
-- ring of Virtio have fuel: the number of descriptors for a chain, and 2^16 for the used ring,
-- whose index is 16 bits wide and panics on overflow. In Vm, mappages has
-- as many rounds as the size has pages and two more, and a copy as many as there are bytes; in Fs, a
-- read has as many rounds as there are bytes, and the walk over a path one round more than the path has
-- bytes, each of which takes a name off. The search for a power of two in Buddy has 64 rounds, for numbers
-- of 64 bits; its other loops run over the sizes. Everything else is structural recursion.
-- Arithmetic that the source does with checks panics on overflow in the model; arithmetic with
-- `Wrapping` is modulo 2^64.
--
-- Not modelled: of the allocator of pages, its initialisation; of the page tables, unmapping,
-- growth and shrinking of user memory, the copy of a table, which allocates the size of a Uvm for
-- a page, and the map of the kernel; of the files, reads and writes of an open file; of the file
-- system, truncation, writes and directories; of the system calls, their dispatch and those on paths. Not
-- modelled at all: traps and assembly, the loader of programs, the programs under src/user, and
-- the tool that makes the disk image. Locks that only protect an operation are not part of its
-- state: the operation is one step. Memory orders weaker than sequential consistency are left
-- out.
pub mod Base
pub mod Log
pub mod Bio
pub mod Console
pub mod Virtio
pub mod Proc
pub mod Rwlock
pub mod Channel
pub mod Layout
pub mod Once
pub mod Intr
pub mod Mode
pub mod Uart
pub mod Vm
pub mod Files
pub mod Fs
pub mod Buddy
pub mod Lock
