-- ===== src/Lib.antt =====
-- A verification library for this repository, a collection of concurrent data structures and network
-- services in C++.
--
-- The parts, and the files that model them:
-- redis/: a key-value server that speaks RESP, and its client. `Redis.Types` is resp_types.h,
-- `Redis.Reader` resp-reader/ (class RespReader), `Redis.Writer` resp-writer/ (class RespWriter),
-- `Redis.Storage` redis-server/simple_storage, `Redis.Server` redis-server/server (ReadCommand,
-- ProcessCommand and the loop in Listen), `Redis.Client` redis-client/client. `Redis.Lines` and
-- `Redis.RoundTrip` relate what is written to what is read, `Redis.Client.Session` a client to a
-- server. A connection is the list of all bytes that its peer sends before it closes, and the list of
-- the bytes written to it; a blocking read is one that gets its bytes later. An operation returns its
-- result or its exception with the bytes that it leaves. What a `string_view` into the reader's buffer
-- shows is returned by value, since each operation writes the buffer before it reads it. `serve` has
-- the storage to itself, as one connection sees it. Sizes at which an allocation fails are not
-- modelled.
--
-- buffered-channel/, unbuffered-channel/, semaphore/, timerqueue/, sync-map/, rw-lock/, rw-spinlock/,
-- futex/:
-- `Concurrency`, a module to each. What a call does under its mutex is one step, from its wait to its
-- end; the parts of a call before and after a wait are functions of their own, and `Step` and `Reach`
-- give the interleavings. A call that has to wait says so. `Wakeup` looks at the steps of a condition
-- variable, between which an operation without the mutex may come. In `RwSpinLock`, `FutexMutex`
-- and the lock-free part of `SyncMap` a step is one atomic operation or system call. Memory is taken
-- as sequentially consistent, which the code asks for but in futex/, whose one word it changes
-- with acquire and release.
--
-- tools/cactus/io/: `Cactus.Reader` is the interface IReader with ReadFull and ReadAllToString,
-- `Cactus.Buffered` the interface IBufferedReader with BufferedReader and ViewReader. A reader is a
-- state with its virtual functions; `IsStream` and `IsBuffered` say what callers rely on, and the
-- implementations are shown to fill them.
--
-- constexpr-map/constexpr_map.h: `ConstexprMap`, the array with all its slots, so that what an erased
-- one keeps can be seen.
--
-- matrix-3.0/: an interpreter that turns a program into a matrix. `Matrix.Tokenizer` is tokenizer.h, with
-- the stream as the list of the characters left; between characters `consume` carries the number of
-- spaces skipped, which are fewer than four. `Matrix.Dense` is matrix.h, `Matrix.Expression`
-- expression.h with class Line, and `Matrix.Interpreter` interpreter.h. A line is the list of the tokens
-- before its cursor, and reading behind its end is an error of its own. `Matrix.Interpreter.Reference` is
-- the language of readme.md: a program as a tree, run statement by statement. The coefficients of an
-- expression are 64-bit words that wrap; in the code they are int64_t, and overflow is undefined. A map from
-- names is the list of its entries as they were made.
--
-- matrix-2.0/matrix.h: `Matrix.Chain`, the product of a chain of matrices, which are known by their indices
-- and sizes; the product of two is a parameter, and a `Glue` is taken as the list of its operands. Counts of
-- operations are 64-bit words that wrap. `compute` has fuel for each matrix behind the first.
--
-- hash-table/concurrent_hash_map.h: `HashTable`, with `table_` as its size and a function from indices. A
-- call under the mutex of its list is one step, and so is `Rehash`, which holds all mutexes.
-- `HashTable.Refinement` says what a valid state is and which map it stands for. The numbers of lists and
-- elements stay below the limits of int and size_t.
--
-- executor/executor: `Executor` has the tasks as a store with numbers for pointers and what a
-- call on one does to it and to the others; `Executor.Threads` the two queues, the rounds of the threads
-- and the calls of `Executor`; `Executor.Futures` futures, `Invoke`, `Then` and the combinators. A call
-- is one step, whatever tasks it passes through, so it does not interleave with another; the heap of
-- the timer queue is the list of its tasks in the order of the start times that they had when each was pushed,
-- which is a heap, with the first task as its front. A task's start time may change while it stands there;
-- what std::push_heap and std::pop_heap do with a list that is then no heap is taken as the same insertion
-- and the same removal of the front.
-- `Executor.Once.Reach` has the histories of calls by users and threads, `Executor.Dependencies` what
-- the counters of the tasks count in them.
--
-- `Std.Decimal` gives std::to_string and std::stoll by their documented behaviour on decimal numbers;
-- `Prelude` has what all parts share: lists over the native numbers, Boolean tests, integers.
--
-- Numbers are natural numbers and integers; a word keeps its wrap-around where the code can reach it
-- (the conversion of a length to size_t, the word of RWSpinLock), and counters that would have to count
-- 2^64 calls do not wrap. The length of a bulk string is so small that with its line end it is an int64_t.
-- `read_back_up` gives back no more than was read, so that its CHECK has no failure here. Bytes are
-- numbers. Loops over input are on fuel: `serve` ends with a round more than there are bytes or commands,
-- `read_full` with a round for each byte, `tokenize` with a round more than there are characters,
-- `power_loop` with a round for each bit of the exponent, `read_expression` with a round more than the
-- line has tokens and `transform_loop` with one more than there are lines, `read_all_to_string` and
-- `drain` with a round more than there are bytes or values, `on_finished` with more fuel than there are
-- numbers of submitted tasks, and the theorems say so.
--
-- Not modelled: the scheduler of tools/cactus with its network and RPC layers, the lock-free structures,
-- subset-sum/, the sort of constexpr-map/, the other operators of matrix-2.0/, the ranges and the
-- type-level tasks, the proxies and the tools; tests, benchmarks and build files. Reclaiming old snapshots
-- of SyncMap is the business of hazard pointers, which are not modelled either.
pub mod Prelude
pub mod Std
pub mod Redis
pub mod Concurrency
pub mod Cactus
pub mod ConstexprMap
pub mod Matrix
pub mod HashTable
pub mod Executor
