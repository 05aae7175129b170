-- ===== src/Lib.antt =====
-- A verification library for this repository: the shared-memory allocator sharedMalloc, the server and
-- the client of multiThreadedWebServer, and the shell myShell.
--
-- sharedMalloc is a heap that forked processes share; multiThreadedWebServer is a server with a pool of
-- threads, its client and a CGI program; myShell is a shell with pipelines. The programs share no code.
-- The library models freeList.c, heapAllocator.c and main.c of sharedMalloc/src; server.c, request.c,
-- client.c and output.c of multiThreadedWebServer; queue.c and hw1.c of myShell.
--
-- Base: shared names, Boolean tests on numbers, lists over the native numbers, strings as lists of
--   character codes; the C string in a buffer is what `up_to_zero` leaves of its bytes.
-- Malloc/Memory: `struct Node` at byte addresses, the globals of heapAllocator.c, and commands that
--   read and write them. A read or write at NULL or outside the mapping is a fault; a second lock by
--   the one process that runs blocks. Headers at different addresses are different headers: the
--   layout below shows that headers in use never overlap. The `FreeList` that the program keeps in
--   the payload of its first block is a part of the state, not of the memory.
-- Malloc/FreeList: bestFit, worstFit, firstFit, nextFit, split, findPrevNode, coalesceFreeList.
--   bestFit and worstFit are one loop with the comparison as a parameter; the loops of firstFit and
--   nextFit are one loop with the node to stop at as a parameter. A `size_t` sum wraps at 2 ^ 64.
-- Malloc/Allocator: getHeapAddress, InitMyMalloc, MyMalloc, MyFree, unInitMyMalloc. `getpagesize`,
--   `sizeof(pthread_mutex_t)` and `mmap` are the parameter `Platform`.
-- Malloc/Layout: the invariant of a heap: the free blocks, linked by their headers from the head on,
--   and the blocks in use tile the mapping, and the rover is NULL or a free block.
-- Malloc/Tiling, Chain, Relink, Finish, Carve, Fit, FirstFit, Candidate, ExtremalFit, NextFit,
--   Allocate: the searches and MyMalloc on a heap with a layout.
-- Malloc/Glue, Insert, Absorb, Rover, Coalesce, Position, Release, InsertFree, Free: MyFree on such a
--   heap.
-- Malloc/Dump: DumpFreeList, as the list of the rows that it prints; Malloc/DumpRows: what they are.
-- Malloc/SetUp, Init: InitMyMalloc. Malloc/Tests: runs, and the theorems at concrete heaps.
-- Malloc/History: histories of calls, in which a program holds the results of MyMalloc that it has not
--   freed; History/Owned, Reached: the blocks behind them. A call is one step, as it holds the mutex.
-- Malloc/Demo: the tests of sharedMalloc/src/main.c, with what they print as a list; Demo/Ends: the
--   tests as histories; History/Tests: the theorems from a heap that InitMyMalloc set up.
--
-- Shell/Queue: myShell/queue.c, with what `malloc` returns as an argument and NULL or a free cell as
--   a fault; Shell/Fifo: the queue as a list; Shell/Tests: the theorems at concrete queues.
-- Shell/Words: trim and parseCommand of myShell/hw1.c; Shell/Words/Trim, Parse: what they find.
-- Shell/Commands: the globals of hw1.c, createChildProcess, waitForAllChildProcesses,
--   copyProcessOutputToBuffer and executeCommand, as the parent process runs them; what a child would
--   do is recorded. The system calls are the record `Os`; which children were forked and which were
--   waited for are histories. The history is the list that the queue holds.
--   Shell/Commands/Children: the branches of executeCommand.
-- Shell/Lines: executeLine, shellMode and the loop of batchMode; Shell/Lines/Split: executeLine as a
--   run of commands; After: the state behind a line; Input, Session, Batch: the lines that are read;
--   Shell/Lines/Tests: runs, and the theorems at concrete lines.
-- Shell/Main: batchMode and main of hw1.c over files that do not change meanwhile; Main/Ran: the lines
--   that main runs. Shell/Remembered: the history in the queue of queue.c, with executeHistory and the
--   loop of main that frees it; Remembered/Freed: the list of the commands behind it.
--
-- Server/Request: `request_t` of multiThreadedWebServer/request.h, less its read buffer.
-- Server/Schedule: getargs and the three policies over the slots of the queue; Server/Choice: the slot
--   that SFF and RFF choose.
-- Server/Queue: the ring: shift_queue_left, and what thread_handle and queue_put of server.c do while
--   they hold the mutex. Server/Queue/Slots, Shift, Holds, Close, Serve, Put: the ring as a list of
--   requests; Policies: the request that each policy takes from that list.
-- Server/Threads: main and the pool as a step relation, interleaved at the operations on the three
--   semaphores. What a thread does under the mutex is one step, since no other thread touches the ring
--   meanwhile: the mutex is what the theorems of Threads/Safety show it to be. The
--   parameter `Clients` says what queue_put reads of each connection, or that it reads for ever, and
--   whether a handler ends; in Server/Receive the reading is a definition.
--   Threads/Counts, Invariant, Safety, History, Accounts, Progress, Drain: the reachable states.
-- Server/Uri: requestParseURI and requestGetFiletype; Server/UriParse: the cases of a URI.
-- Server/Receive: the request line and requestReadhdrs over `Rio_readlineb`, which is a parameter;
--   Receive/Headers: when requestReadhdrs ends.
-- Server/Response: requestHandle, and what requestError, requestServeStatic and requestServeDynamic
--   write, where a failing Open or Mmap ends the server; Response/Handle: when it serves.
-- Server/Client: clientSend, clientPrint and the file names of main; Client/Exchange, Length: what one
--   side writes and the other reads; Client/Sends, Listed: connections; Client/Print, Framed: what
--   clientPrint prints of a head and a body; Client/Reply, Refusal: a file, and the error page;
--   Client/Threads: main and thread_func, with `atoi` as glibc has it.
-- Server/Cgi: the CGI program output.c, with the clock and the operations on `double` as parameters;
--   Cgi/Reply: its reply, as the client prints it. Server/Cgi/Tests: the theorem at a clock.
-- Server/Answer: the bytes of every answer of requestHandle; Answer/Tests: the theorem at a request.
-- Server/Exchange: a request from the client through the queue to the reply. Server/Tests,
--   Threads/Tests, Exchange/Tests: the theorems at concrete inputs.
--
-- Loops run on fuel, with `none` where it is used up. For a walk through the free list a unit for each
-- free block, and one more where it ends at NULL, is enough; for shift_queue_left a unit for each
-- request in the ring; for requestReadhdrs and the loops of clientPrint one for each line and one more;
-- for batchMode one for each character and one more; for the history one for each command and one
-- more; for the CGI program one for each reading of the clock in its loop. The theorems ask for no
-- more, but for the body of a reply, where they ask for one for each byte.
--
-- Not modelled: error messages; multiThreadedWebServer/blg312e.c and blg312e.h, a copy of the csapp
-- library, whose calls are parameters; pthread_create and pthread_join in client.c; printQueue of
-- server.c, which nothing calls; the prompt of hw1.c with the user's name.
-- A pointer to a header is taken to be aligned, as the program does, and a string to fit its buffer but
-- in args and output_buffer of hw1.c and in the file names of client.c, where the bounds are modelled.

pub mod Base
pub mod Malloc
pub mod Shell
pub mod Server
