-- ===== src/Lib.antt =====
-- A verification library for the system programs of this repository: the job-control shell yash,
-- the daemon yashd that serves it over a socket, and parts of the Pintos kernel.
--
-- Yash (Project 1/yash). `Yash.Types` holds the data model of include/yash.h. `Yash.Parse` is
-- src/parse.c: strtok_r and tokenize, then the loop of parse_line, one round at a time, on the
-- variables of the C function; `Yash.Parse.Grammar` states the command language without it.
-- `Yash.Jobs` is the job table of src/jobs.c, `Yash.Redirect` what a child does to its standard
-- streams (src/redirect.c and the child's part of src/exec.c), and `Yash.Shell` the shell process:
-- builtins.c, the parent's part of exec_job, sig_give_terminal and the loop of main.
-- A C string is the list of its bytes, a pointer into a job's buffer is the string that it points
-- to, and a pointer to a job of the table is its number.
-- What fork, pipe, malloc, waitpid, open and fgets return are arguments. A function that may block
-- for ever returns an option, whose `none` is the call that has not returned yet.
-- Fuel: tokenize has one more round than the line has bytes, and each round uses at least one;
-- decimal printing takes a round a digit.
--
-- Yashd (Project 2/yashd/server). `Yashd.Types` holds session_t with the answers that the kernel
-- will give to its writes and a trace of what it does to the world. `Yashd.Output` is
-- session_write and its callers, `Yashd.Input` the input buffer (buf_take_line, buf_fill,
-- session_readsocket), `Yashd.Parse` parse.c on top of the parser of Project 1, `Yashd.Jobs` the
-- job table of jobs.c. `Yashd.Dispatch` is what the client's messages do while a job runs
-- (dispatch_running, session_pump), `Yashd.Foreground` jobs_wait_fg and builtins.c, `Yashd.Exec`
-- the parent's part of exec_job, and `Yashd.Session` dispatch and the session thread. The modules
-- below them hold proofs. Each session has a table of its own and one thread, so the sessions are
-- modelled one at a time. A line of the client is taken to hold no NUL byte.
-- Fuel: the loop over the lines of the buffer has one more round than there are bytes, and a round
-- takes at least one.
--
-- The client (Project 2/yashd/client). `Yashd.Client` is the loop of src/client.c over what pselect
-- and the reads return, with the signal flags and partial writes; `Yashd.Client.Served` joins it to
-- the session of the server, and `Yashd.Client.Keyed` is about what a round does with typed input.
-- Fuel: the loop over the typed lines has one more round than there are bytes, and a round takes
-- one at least.
--
-- Pintos (Project_3). `Pintos.Bitmap` is lib/kernel/bitmap.c on its words of 32 bits;
-- `Pintos.Bitmap.Files` is its bitmap_read and bitmap_write, which pass the words as bytes, the
-- lowest first, to a file of the interface `FileOps` (file_read_at and file_write_at).
-- `Pintos.FreeMap` is its client filesys/free-map.c, which hands out the sectors of a disk and
-- keeps the map in such a file. `Pintos.Inode` is the reads and writes of filesys/inode.c, on a disk
-- that is a function from sectors to bytes, and `Pintos.File` filesys/file.c with the counts of an
-- open inode; its `file_ops` fills the interface (`Pintos.File.Stored`). Words and
-- sizes have 32 bits, as the kernel's target has: sizes wrap around at 2 ^ 32, and the invariant of a
-- bitmap leaves 31 to the limit. The scan has a round for each place at which a group may start, and
-- the loops over a file have as many rounds as there are bytes to copy, since a round copies one at
-- least.
-- `Pintos.Lists` is lib/kernel/list.c on a store of the elements' two pointers, with the ASSERTs as
-- options; its theorems relate the store to the sequence of the elements, and the walks have fuel for
-- the elements and one round more, and so have the passes of list_sort, each of which leaves fewer runs.
-- `Pintos.Threads` is threads/thread.c: the status of each thread, the ready list, blocking,
-- yielding, ending and creating threads, and the switch. `Pintos.Synch` is threads/synch.c on top of
-- it. Only the running thread moves, and an interrupt may make it yield wherever interrupts are on;
-- so lock_acquire, lock_release and sema_down are cut at those places, and a thread's place says which
-- part it runs next. `Pintos.Synch.Moves` has the steps as a relation. The ready list and the lists of
-- waiting threads are sequences here, which the operations of list.c keep as the theorems of
-- `Pintos.Lists` say. The critical section of tid_lock, which guards a counter, is one step.
-- `Pintos.Stdlib` is sort and binary_search of lib/stdlib.c on an array of elements. The heap's loop
-- goes down to a larger index in each round, and the search halves its range.
-- `Pintos.Strings`, with `Pintos.Strings.Tokens`, is lib/string.c on a memory of bytes; a pointer is
-- an address that does not wrap around, and the ASSERTs that it is not null are left out. The loops
-- over a string have one round more than the string has bytes.
-- The modules below the components hold proofs.
--
-- In all parts job numbers, the indices of sort and the offsets of a file are natural numbers: that
-- they stay in the range of int, size_t and off_t is assumed.
--
-- Not modelled: installing signal handlers, the text that perror adds, rebase_pointers, which
-- moves pointers from one copy of a buffer to another, the listening server and the log file of
-- Project 2, condition variables, and the rest of Project_3.
pub mod Base
pub mod Yash
pub mod Yashd
pub mod Pintos
