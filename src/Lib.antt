-- ===== src/Lib.antt =====
-- meinOS: the kernel's lists, processes, permissions, interprocess communication, remote procedure
-- calls, signals, system calls, free pages and heap, the strings, paths and ring buffers of the
-- libraries, and the servers for FAT volumes and for terminals.
--
-- meinOS is a microkernel for x86 with a C library and servers. The part modelled here is what the
-- kernel in kernel2/ keeps about processes and what they send to each other, the library code in
-- lib/libmeinos/ under it, files of the libraries of the programs in apps/lib/, and two servers in
-- apps/. The kernel keeps its processes and its IPC objects on the linked lists of llist.c; a system
-- call finds an object with `ipc_find`, asks `perm_check`, changes the object, and puts processes to
-- sleep or wakes them, which may switch to another process. The keyboard fills a ring buffer of
-- Libmeinos.Ringbuf, from which the terminals read.
--
-- The files and the code they are about:
--   * Prelude: names and lemmas that all share.
--   * Llist: lib/libmeinos/llist.c. Llist.Mem is the heap with the loads, stores, malloc and free of the
--     code; Llist.Ops has one function for each function of the file, without the prefix `llist_`;
--     Llist.Seq has the same operations on sequences. Llist.Chain says when the heap holds a list, and
--     Llist.Stack, Walk, Edit, Remove, Search and Destroy relate the two, function by function.
--     Llist.Relink and Llist.Delete have the lemmas on linked nodes and on deletion.
--   * Perm: lib/libmeinos/perm.c, with `op_mode` and `check` for `perm_check`.
--   * Procm: kernel2/procm.c. Procm.State has `struct proc_S` and the lists of the kernel; Procm.Sched
--     has `proc_regs_save`, `proc_regs_load`, `proc_shedule`, `proc_sleep` and `proc_wake` without the
--     prefix; Procm.Inv and Procm.Switch are about them. Procm.Lookup has `proc_find` and the calls that
--     read from a process, Procm.Calls those that create, change, wait for and end one; Procm.Life and
--     Procm.Exit are about these. Procm.Keep is about what the scheduler leaves of a process, and
--     Procm.Sample is a kernel for the tests. Procm.Turn and Procm.Fair are about the turns of the
--     scheduler.
--   * Ipc: kernel2/ipc.c (Ipc.Registry), kernel2/msg.c (Ipc.Msg and Ipc.Msg.Admin), kernel2/sem.c
--     (Ipc.Sem and Ipc.Sem.Control) and kernel2/shm.c (Ipc.Shm), on the state of Ipc.State, again without
--     the prefixes. Ipc.Msg.Deny and Ipc.Msg.Transfer are about the message queues, Ipc.Sem.Op and
--     Ipc.Sem.Control.Values about the semaphores, Ipc.Shm.Attach about shared memory.
--   * Rpc: kernel2/rpc.c, with `create`, `find`, `destroy` and `getinfo` without their prefixes, and with
--     `call`, `poll`, `call_return` and `list` in Rpc.Calls. Rpc.Lookup is about `rpc_find`, Rpc.Protocol
--     about a call from its start to its return, and Rpc.Withdraw about functions that are made and
--     destroyed.
--   * Syscall and Signal: kernel2/syscall.c and kernel2/signal.c. Procm.Upcall has the calls of
--     kernel2/procm.c that let a process run a function, with the memory of the processes; Signal.Send
--     is about the handler that a signal starts, Syscall.Dispatch about the table of calls.
--   * Memphys: kernel2/memphys.c. Memphys.Pages is about the stack of free pages, Memphys.Bitmap about
--     the pages for DMA.
--   * Malloc: kernel2/malloc.c, with `insert_list`, `donate` and `get_free` for `_malloc_insertlist`,
--     `malloc_donatemem` and `_malloc_getfree`, and `realloc` in Malloc.Realloc. Malloc.Bytes says which
--     bytes a list of blocks holds; Insert and Serve are about the list of free blocks, Malloc.Arena is
--     the heap with its clients, and Sound and Enough are about what these get.
--   * Fat: apps/fat. Fat has the reading of sector.c, file.c and cluster.c, Fat.Chain has
--     `fat_clchain_create`. Fat.Round and Fat.Sector are about reading the volume, Fat.Part and Fat.Cluster
--     about reading a file. Fat.Format says by hexadecimal digits where the FAT keeps the number of the
--     next cluster, Fat.Links which chains it has so, and Fat.Path is about these; Fat.Bytes has the
--     lemmas on bytes in parts.
--   * Vterm: apps/vterm. Vterm has the printing of term.c, Vterm.Escape escape.c and Vterm.Keyboard the
--     handler of keyboard.c. Screen is about a character, Loop and Text about a write, New about a
--     terminal that has just been made, and Keys about the keyboard.
--   * Libmeinos: apps/lib/libmeinos. Libmeinos.Path has path.c without the prefix `path_`;
--     Libmeinos.Path.Names has the names of a path, and Parse, Output and Dots are about the functions.
--     Libmeinos.Ringbuf has ringbuf.c without the prefix; Transfer is about reading, Fill and Exchange about
--     writing to an empty buffer and what is read after it, and Block has the lemmas on copies.
--   * Stdlibc: lib/stdlibc/string.c, and files of the C library of the programs. Stdlibc.Memory has
--     `memcpy`, `memmove` and `memset` on a memory of bytes, with their loops over words and bytes;
--     Stdlibc.Copies and Stdlibc.Moves say what they leave.
--     Stdlibc.Strings has `strlen`, `strcmp` and `strcpy`, and Stdlibc.StringCopy is about the last.
--     Stdlibc.Bounded has `memcmp`, `memchr`, `strncpy` and the others that take a length.
--     Stdlibc.Ctype is lib/stdlibc/ctype.c, and Ctype.Classes is about it.
--     Stdlibc.Pathname is apps/lib/stdlibc/pathname.c, and Stdlibc.Pathname.Last is about it.
--     Stdlibc.Env has `getenv` and `setenv` of apps/lib/stdlibc/env.c, and Env.Overwrite is about them.
--
-- The model. A pointer is its address, NULL is 0. In Llist the heap is explicit, and an access to no
-- object is a fault. Procm and Ipc use the lists as sequences, in the form that Llist shows them to
-- have, and keep each structure at its address, so two pointers to one process see the same structure.
-- A C integer is its pattern of 32 bits, with the wrap-around written out, and -1 is 2 ^ 32 - 1. `malloc`
-- is an argument: the address that it returns, NULL included where the code tests for it. Results of a
-- call stand beside the new state; what a call writes through pointers is part of its result.
--
-- Fuel. The loops of `llist_destroy`, `llist_find`, `llist_copy`, `strlen`, `strcmp`, `strcpy` and
-- `strchr` run on fuel: more rounds than the list has elements, or the string characters, are
-- enough. The loops of `fat_read` and `fat_cluster_read` have a round for each byte, which is
-- enough since each round takes one, and `vt_escape_decode` has more rounds than a sequence has
-- characters and arguments. `fat_clchain_create` takes its fuel as an argument. `_malloc_getfree` has a
-- round for each page that the page allocator still gives. All other loops follow a list or a counter.
--
-- Not modelled: what the calls print, the loading of page tables behind `memuser_load_addrspace`
-- (the loaded address space is recorded), the functions of string.c on tokens, numbers and error
-- names, the calls of procm.c on page tables, the start of the memory managers from the map of the boot
-- loader, interrupts that come while a call runs, the directories of apps/fat and what it writes (a
-- write leaves what the cache of blocks makes of it), `realloc` where headers of blocks lie on each
-- other, the devices and displays of apps/vterm, and the rest of the repository: the page tables of the
-- kernel, the drivers, the other file systems and the user programs. The cache of blocks under apps/fat
-- is a parameter: which blocks it hands out, and their bytes.
pub mod Prelude
pub mod Llist
pub mod Perm
pub mod Procm
pub mod Ipc
pub mod Stdlibc
pub mod Fat
pub mod Libmeinos
pub mod Malloc
pub mod Memphys
pub mod Rpc
pub mod Signal
pub mod Syscall
pub mod Vterm
