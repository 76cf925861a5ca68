-- ===== src/Lib.antt =====
-- ZBid, an auction server: clients log in, create, watch and bid on auctions, and a ticker counts
-- the auctions down and closes them.
--
-- The program. `main` (src/server.c) sets up two linked lists, the users and the auctions, a counter
-- of auction ids and three semaphores, starts job threads and a ticker thread, and accepts clients.
-- A client's thread copies its messages into a bounded buffer (src/sbuf.c); a job thread takes them
-- out and calls the handler for the message's type (src/finalsample.c); the handlers
-- (src/helpers.c) search and change the lists (src/linkedlist.c) and answer by `wr_msg`.
--
-- The files.
-- - Base: names shared by all modules, the Boolean tests, texts as lists of bytes, `int` as ℤ with
--   the test of its 32-bit range, lists measured by the native ℕ.
-- - Server: the records of include/structs.h and the shared state of src/server.c. `users` and
--   `auctions` are the two lists; auctions are objects on a heap, since `auctionsList`,
--   `auctionsOwned` and `auctionsWon` share them, and users are positions in `users`, from which
--   nothing is removed. A `char *` is NULL or an address with a text, as the code compares some by
--   address. Server/Protocol has the message types (include/protocol.h), Server/Print has
--   `sprintf` of an `int`, Server/Monad the steps a handler is made of, with what ends it: a
--   NULL or wild pointer that is read, a buffer that is overrun, an `int` out of range, a wait.
--   Server/Monad/Ensures and Server/Monad/Strcat are the lemmas on them.
-- - LinkedList: the functions of src/linkedlist.c on nodes in memory (Nodes, Code), the shape of a
--   list there (Chain), what the functions do to it (Insert, Remove, Rear, Order, Sorted),
--   what a removal does to a walk of another thread (Walk), and the operations on sequences
--   (Contents) which the handlers' models use in their place.
-- - Users, Auctions, Reports: the handlers of src/helpers.c. Users/Find has the searches, Users/Session
--   `login` and `logout`; Auctions/Create, Close, Watch and Bid have the handlers of these names with
--   their loops; Reports/Listing has `listAuctions` and `printUsers`, Reports/Account the answers
--   about the client's own balance, wins and sales. Users/Total, Users/Session/Outcome,
--   Auctions/Ids (the ids in the list), Auctions/Create/Created, Auctions/Close/Paid, Settle
--   and Sold, Auctions/Bid/Outcome,
--   Leading and Buying, and Reports/Lines with its child Bounds (how long the texts get) hold the
--   lemmas on them and the descriptions that the handlers are compared with.
-- - Jobs: what src/finalsample.c does with messages. Jobs/Accept is the body of the loop of
--   `run_server` for one connection, Jobs/Client `process_client` over the messages of one client,
--   Jobs/Process `processJob`, Jobs/Worker the loop of `run_jobs` (Jobs/Worker/Order: the jobs in
--   their order); Jobs/Text has `strtok` and `atoi` of the C library as they are called,
--   Jobs/Block strings in blocks of memory. Jobs/Requests, Jobs/Client/Copy, Jobs/Text/Number and
--   Jobs/Text/Tokens are about messages written field by field. Jobs/Buffer is src/sbuf.c, the ring
--   buffer of jobs, with the size of the allocated block and of a pointer; Jobs/Buffer/Queue: the
--   queue that it is. Jobs/Buffer/Threads has threads in its two functions whose steps interleave,
--   a semaphore call or the statement under the lock at a time; its children are what such threads
--   hold (Shared), one step (Step), the items in order (Order) and steps that wait for nothing
--   (Progress).
-- - Ticker: one tick of `run_tick` (src/finalsample.c); Ticker/Walk: which auctions it reaches;
--   Ticker/Wait: the loops of `run_tick`, over the readings of the clock or the results of `getline`.
-- - Start: `main` (src/server.c) up to `run_server`, over what `getopt` gave; Start/Options: what
--   the options come to.
-- - Invariant: the condition on the shared state under which the handlers read no NULL pointer, and
--   one child for each handler; Invariant/Watching/Back: a client that watches and leaves. Its
--   children Lookup, Update, Removing, Gone and Listing are lemmas, the searches by id, the end of
--   an auction, the removal of one that has left the list, and the answer of `listAuctions`.
-- - System: the start of the server and its runs: connections, jobs and ticks in any order, each run
--   from its start to its end. System/Safety is about the states that it reaches. System/Serve is
--   the loop of `run_server` over the connections, with `server_init`; System/Serve/Returns: how it
--   ends. System/Shutdown is `sigint_handler`. System/Stranger is about clients without an account,
--   System/Race about a bid between a tick's count and its closing of an auction. System/House is
--   the abstract auction house: the auctions on offer, the balances and the last id, with what a
--   command does to them; its children compare it with the handlers (Opening, Offering, Watching,
--   Bidding with Closing, Ticking, over the lemmas of Accounts and Lots), turn messages into
--   commands (Commands) and put this together (Orders, Refines); Evolves and Lifetimes say what can
--   become of an auction. System/Threads has threads whose steps interleave: Pieces and Programs
--   have the handlers once more, as programs of semaphore calls and pieces between them, Alone
--   compares those of the jobs with the handlers, Quiet and Locking are about the semaphores that they
--   take, Deadlock about any number of them from the start of the server on, and Interrupt about
--   SIGINT in the midst of them.
-- - Examples: a state with two users and one auction, and the theorems at it.
--
-- The model. A handler is a function from the state to its result, the next state and the log of
-- the messages handed to `wr_msg`, and runs on its own; a wait for a semaphore whose value is 0
-- ends the run. What other threads do in between is modelled in System/Threads, where a thread
-- waits for its semaphore while the others go on, and is not interrupted within a piece without
-- semaphore calls. A tick there walks from node to node over the list as it is at each step, over as
-- many nodes as one likes. The job buffer has its own threads, and System/Race one bid within a tick.
-- `buffer_lock`, which the code holds while it reads from a client, is part of the accept loop and of
-- `process_client`: whether it came free and the `read` under it returned is an argument, and where
-- it did not, the loop or the thread waits there. The threads of System/Threads neither take it nor
-- read: a LOGIN begins there when its message has been read.
-- What `malloc` returns, the address and the old contents of the block, is an argument. A sum or
-- difference of `int`s that leaves the 32-bit range, which C leaves undefined, ends the run, and
-- so does a `strcat` past the 1024 bytes of a buffer. How many bytes an allocated block really
-- has is an argument too, since the code writes behind the bytes that it asked for: what does not
-- fit in the block ends the run. The length of a list, an `int` in the code, is a natural number,
-- which differs from 2 ^ 31 nodes on. Debug output and `free` of messages are left out.
--
-- Fuel. The walks of src/linkedlist.c take one unit of fuel for each node, `length + 1` in all; the
-- theorems on them show that this is enough on a well-formed list. `print_int` has ten digits,
-- enough for a 32-bit `int`. `run_jobs` has so many rounds; one for each job of the queue is enough
-- to empty it. All other loops walk a list, of connections, messages or clock readings where the
-- code waits for them, and need none.
--
-- Not modelled: what threads do within one another's pieces of a handler, between two semaphore
-- calls, also the place of `strtok`, which all threads share; what sockets, `select` and signals do outside the code:
-- the results of the system calls are arguments, and `sigint_handler` runs as a call;
-- `PrintLinkedList`, which only prints; src/csapp.c, a copy of another library, of which `P` and
-- `V` are modelled; lib/protocol.o, which has no source here: what `rd_msgheader` and `read` gave
-- is an argument; rsrc/miniclient.py, a test client.
pub mod Base
pub mod Server
pub mod LinkedList
pub mod Jobs
pub mod Users
pub mod Auctions
pub mod Ticker
pub mod Reports
pub mod Invariant
pub mod System
pub mod Start
pub mod Examples
