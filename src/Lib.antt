-- ===== src/Lib.antt =====
-- Linux_cpp_learn: a model of the repository's C++ and C components and the theorems about them.
--
-- The repository is a collection of systems programs. These are the parts modelled here, by their
-- paths from the repository's root:
--
-- - thread_pool/raw_version, thread_pool/cpp11 and echo_tcpServer/threadPool are three thread pools:
--   a queue of tasks behind a mutex, worker threads, `addTask`, and a destructor that stops them.
--   TaskPool.antt has the shared state and the interface `Code` (addTask, a worker's pass through its
--   critical section, the stop, the call of a job, with the laws that the rest relies on);
--   TaskPool/Raw, TaskPool/Cpp11 and TaskPool/Echo translate the three sources and fill it.
--   TaskPool/System is the threads: a state of the pool, the workers and the history of the tasks, and
--   a step for each thing that one thread does next. A critical section is one step, since all that it
--   touches is behind the mutex, except `m_stop`, which is read first; but a worker that has tested the
--   loop's condition may hold the mutex still when the destructor, which takes no mutex, stores the
--   stop and broadcasts. A schedule is a list of steps, and theorems range over all schedules. The
--   children of TaskPool/System prove what every step keeps; TaskPool/Pools and TaskPool/EchoLimits
--   state it of the three pools.
-- - connection_pool/connPool: a pool of database connections. ConnPool.antt translates addConn,
--   getConn, the deleter of its shared_ptr, a round of produceConn and of recycleConn, the constructor
--   and the destructor; ConnPool/JsonConf translates parseJsonFile over what the JSON library answers;
--   ConnPool/System is the pool with its clients and its two threads. Each call holds the mutex, so it
--   is one step; the clock and the success of `connect` are inputs of a step. getConn's loop takes fuel
--   2, which ConnPool/Limits shows to be enough; produceConn's takes one more than the connections
--   missing. ConnPool/Client is op2 of connection_pool/main.cpp, a client that uses the pool alone, and
--   ConnPool/Bench is test2 of that file: threads that run op2 on one pool beside the pool's own two
--   threads, with a step for each thing that one thread does next; ConnPool/Bench/Rows, Bound
--   and Finish are about its runs.
-- - connection_pool/MysqlConn: one connection. Mysql.antt translates its methods over the MySQL client
--   library, which is the parameter `Mysql D`: the answers of its calls over a state D of the library's
--   own. Result sets are numbered, so that a row of a freed one is known. The loop over a result set is
--   that of query() in connection_pool/main.cpp, with fuel for one pass more than there are rows;
--   Mysql/Program is all of query(), and op1.
-- - echo_tcpServer/server: EchoServer.antt translates the task that serves a client and the loop over a
--   batch of epoll events, which hands clients to TaskPool/Echo's addTask. The answers of the system
--   calls are inputs. EchoServer/Main is its main, with the tasks that workers take in between as an
--   input. EchoServer/Client translates echo_tcpServer/client.cpp in the same way.
--   EchoServer/Session joins one client and the tasks that serve it by two streams of bytes, one each
--   way, which lose and reorder nothing while the socket is open. Each event on the socket adds a task,
--   also while another one runs; a task's read, its write and its close are steps of their own, how many
--   bytes a read finds and a write takes, when an event is reported and whether a reset is seen are free.
--   A signal that ends the client at a write is left out, and so is another client's socket that gets the
--   number of the closed one. Bytes that come to a closed socket, and those that a write does not take,
--   are lost. EchoServer/Echoes says what each step keeps, EchoServer/Kept shows it, and
--   EchoServer/Ending and Hang are about where the bytes are and how sessions end. In EchoServer.antt
--   what write answers is left out, since the source does not look at it.
-- - bagu/simpleString: MyString.antt translates the string class over an explicit heap of character
--   blocks, in which a read or write past a block's end, a read of a character that was never written
--   and a use of a deleted block are faults; MyString/Memory has the C string functions. Lengths and the
--   sizes of new blocks wrap around at 2 ^ 32. MyString/System is a program over such objects, with the
--   outcome that it should have on values (`Does`); MyString/Represents says when a store holds given
--   strings, and the other children are about the operations on such a store.
-- - bagu/thread: DataQueue.antt translates the producer and the consumer, each pass through a critical
--   section as one step; the children show what holds after every schedule of the two.
-- - bagu/atmoic: Counters.antt translates the two counting loops, with an increment of the plain int as
--   a load and a store, and Counters/Totals says what the counters come to.
-- - deadlock_check/deadlock_check.c: DeadlockCheck.antt translates the graph of threads that wait for
--   threads, DeadlockCheck/Search the search for a cycle, and DeadlockCheck/Locks the list of locks and
--   the hooks lock_before, lock_after and unlock_after; DeadlockCheck/Program is a sequence of the
--   hooks' calls. An access outside an array is a fault. DFS takes fuel, one more than there are
--   vertices, which is enough since each call but the last marks a vertex (DeadlockCheck/Search/Ends).
--   DeadlockCheck/Edges, Links, Closed and Entries have the laws of the graph and the list, and
--   DeadlockCheck/Races is about orders of the hooks' calls.
-- - deadlock_check/test.c: DeadlockCheck/Circle translates its four threads, which lock in a circle,
--   under those hooks. Each call of lock and unlock is the steps of its hook and of the library's own
--   call; the order of the threads' steps is free, and the sleep is a point at which others run.
--   DeadlockCheck/Circle/Held and Standstill are about which mutexes are locked and who waits, Entered
--   and Asleep about the threads up to the sleep, and Typed, Waiting and Found about the graph behind it.
-- - mem_pool/mempool.c: MemPool.antt translates the memory pool by the addresses of its blocks;
--   MemPool/Nodes has the nodes from which memory is cut off, and MemPool/Release what gives it back.
--   What posix_memalign and malloc answer is a list, and the record `Os` has the addresses given and
--   freed. mp_alloc and mp_alloc_large call one another, so mp_alloc takes fuel;
--   MemPool/Attached shows 2 to be enough where the pool was made for 16 bytes or more and no entry
--   for a large block lies outside the nodes' blocks; the write of an entry outside them is a fault
--   of the model. MemPool/Fuel is about smaller pools. MemPool/Session is
--   a program that uses a pool, MemPool/Balance, Kept and Destroyed are about the addresses that its
--   calls keep, and MemPool/Snug, Inside and Attached about the places of the entries; MemPool/Bounds is about where
--   the memory of one call lies, and MemPool/Overlap, Regions, Small and Disjoint about the bytes handed
--   out by many. Only MemPool/Calloc, which has mp_calloc, looks at the contents of the memory: what
--   mp_alloc writes into the structs of the pool and of its nodes, and into the entries of large blocks,
--   is any function there.
-- - memoryleak_check/dlsym_hook.c and macro_hook.c: LeakCheck.antt translates the hooked malloc and
--   free, LeakCheck/Macro the macros, and LeakCheck/Files the directory with a file for each block.
--   Addresses, and where the caller's code lies, are inputs of a call; fopen succeeds a given number of
--   times, and its own calls of malloc are a list; those of printf are left out. malloc takes fuel for
--   such nested calls, and LeakCheck/Leaks shows 2 to be enough. LeakCheck/Program is a program and the
--   blocks it never frees, LeakCheck/Faults is about double frees and many calls.
-- - msgqueue/send.c and recv.c: MsgQueue.antt translates the two programs, one call of the System V
--   message queue a step, in any order; the queue is a list, as msgrcv with the type 0 uses it, and what
--   may fail is an input of the step. MsgQueue/Flows and Order are about the messages.
-- - bagu/simpleShared_ptr: SharedPtr.antt translates the counted pointer over an explicit heap, and
--   SharedPtr/System is a program that makes, copies and drops such pointers.
--
-- Numbers are natural numbers. What wraps around: the configuration's conversions to unsigned short and
-- unsigned int (Prelude/Int), the lengths of MyString, and addresses where mem_pool and
-- memoryleak_check calculate with them; counts of references and of connections do not. Text is a list
-- of bytes. Output to the terminal is left out except where it is what the program is for (query() of
-- connection_pool/main.cpp, recv.c, the report of a deadlock) or where a read of a buffer matters
-- (printf's %s in the echo server).
--
-- Not modelled: the other C programs (json/cjson, gdb, stackFrame), the other demonstrations
-- of bagu, json/jsoncpp, zero_copy and valgrind_learn, which are short examples of language or system
-- features, and the drivers and test programs but for those named above.
pub mod Prelude
pub mod TaskPool
pub mod Mysql
pub mod ConnPool
pub mod MyString
pub mod SharedPtr
pub mod EchoServer
pub mod DataQueue
pub mod Counters
pub mod DeadlockCheck
pub mod MemPool
pub mod LeakCheck
pub mod MsgQueue
