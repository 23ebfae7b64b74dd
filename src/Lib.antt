-- ===== src/Lib.antt =====
-- A model of the core of the p2b kernel: xv6 for the x86 with a scheduler of two priorities, in
-- xv6-public/. Each module stands for one part of the program.
--
-- Prelude     names that the others share, counted loops and searches over arrays, Boolean tests
-- Proc        the process table, xv6-public/proc.h, pstat.h and the calls of proc.c that scan it:
--             `wakeup1`, `kill`, `settickets`, `getpinfo`
-- Lifecycle   proc.c: `allocproc`, `fork`, `exit`, and a pass of `wait` (Lifecycle/Wait)
-- Sched       proc.c: `getHighPriority`, `scheduler`, `yield`, and `sleep` up to its switch
-- Life        any interleaving of these steps, as a relation
-- Log         xv6-public/log.c: `commit` and recovery over a disk whose power fails at any write, and
--             `begin_op`, `end_op`, `log_write`
-- StringOps   xv6-public/string.c, and the string instructions of x86.h
-- Pipe        xv6-public/pipe.c: the ring buffer, with its wrapping counters
-- Kalloc      xv6-public/kalloc.c: the free list of pages
-- Vm          xv6-public/vm.c: page tables, the address space of a process, `mprotect`
-- Fs          xv6-public/fs.c: the bitmap of blocks, inodes on the disk, the bytes of a file, the
--             table of inodes
-- Bio         xv6-public/bio.c: the buffer cache and its list, over the disk of memide.c
-- Console     xv6-public/console.c: the line that the keys edit, and the reads from it
-- Files       xv6-public/file.c and sysfile.c: the table of open files, and the descriptors for them
-- Shell       xv6-public/sh.c: the parser of command lines
-- Ulib        xv6-public/printf.c: `printint`, and xv6-public/ulib.c: `atoi`
-- Spinlock    xv6-public/spinlock.c: nested `pushcli`, and the lock as steps of many CPUs
-- Grep        xv6-public/grep.c: the matcher of patterns
-- Tests       small kernels, disks and memories
--
-- State. The table is a function from slots to records; a pointer to a process is its slot, other
-- pointers are numbers with 0 for null. Machine integers are natural numbers with the wrap written
-- out. A function of the kernel becomes a function from the state before to the result and the state
-- after. What it calls elsewhere (page tables, files, inodes) is a record `Services` of parameters,
-- of which nothing is assumed. The code between `acquire` and `release` of a lock is one step, so the
-- lock is the atomicity of each function; Spinlock models the lock itself. `fork` and `exit` do part of
-- their work on a slot of their own without the lock: in Life they are three and two steps, between
-- which others may act. `swtch` is a parameter of the scheduler, which says how the process that got
-- the CPU leaves the kernel.
--
-- The virtual memory. A page of memory is an array of words, and a page table one of its pages. The
-- allocator's links in free pages are in its own state. `Mapping` and `Result` tell a panic from a
-- result; a loop over addresses has fuel for all pages of the address space.
--
-- Open files. A call on descriptors is one step. What the last reference lets go is listed, and the
-- pipe or inode itself is with Pipe and Fs.
--
-- Loops. A counted loop is `for_range`, with the bound of the source. `high_loop`, which need not end,
-- and `strlen` have fuel. The theorems on them say how much is enough, or that none is, or hold for any
-- fuel with which the loop ends. The parser of the shell has four rounds for each character.
--
-- The disk. A store has a cache, a disk and the number of writes that still reach the disk, so that
-- each crash point of `commit` and of recovery is an initial number. A boot reads the cache anew.
--
-- The file system. A disk is a function from blocks to their bytes, as the buffer cache holds them; a
-- number of several bytes in a block is written and read byte by byte. An inode is a record beside the
-- disk. The functions of a device are parameters. `readi` and `writei` take a byte at least in a round,
-- so the number of bytes left is fuel enough. The log and its crashes are modelled apart, in Log.
--
-- Not modelled: `ialloc` and the directories of the file system, `inituvm`, `loaduvm` and `copyout`
-- of vm.c, which move bytes of user memory, the reads and writes of open files, system-call arguments,
-- traps, devices but for the disk in memory and the keys of the console, start-up, assembly, and the
-- user programs and their library but for the matcher of grep, the parser of the shell, `printint` and
-- `atoi`. `wait` is one pass over the table, `sleep` its first half, and `pipealloc` only
-- the pipe that it sets up.
pub mod Prelude
pub mod Proc
pub mod Lifecycle
pub mod Sched
pub mod Life
pub mod Log
pub mod StringOps
pub mod Pipe
pub mod Kalloc
pub mod Spinlock
pub mod Grep
pub mod Vm
pub mod Fs
pub mod Bio
pub mod Console
pub mod Files
pub mod Shell
pub mod Ulib
pub mod Tests
