-- ===== src/Lib.antt =====
-- tw_server: a C++ server framework of fibers, timers, a scheduler over epoll, and HTTP.
-- This library models its parts and proves what they promise, with the inputs on which they fail.
--
-- The parts and their files, with paths from the root of the repository:
-- * ByteArray (tw/bytearray.h, tw/bytearray.cc) is the serialisation buffer. ByteArray.antt has the
--   list of blocks with write, read, setPosition, clear and addCapacity; ByteArray/Numbers has the
--   typed readers and writers. ByteArray/Invariant says when an object is well formed, Room when
--   addCapacity adds enough nodes. WriteLaws, ReadLaws and Seek are about the block operations,
--   Fixed, Varint and Zigzag about the numbers. ByteArray/Buffers has the iovec lists, the read at a
--   position and toString; ByteArray/Files has the file operations and toHexString; ByteArray/Spec
--   is the text with a position that the blocks stand for.
-- * Timer (tw/timer.h, tw/timer.cc) is the ordered set of timers. Each operation is one step, as its
--   lock makes it; the clock and the address of a new timer are arguments.
-- * FdManager (tw/fd_manager.h, tw/fd_manager.cc) is the table of file descriptors.
-- * Fiber (tw/fiber.h, tw/fiber.cc) has the states of a fiber and a thread's pointers to fibers.
-- * Scheduler (tw/scheduler.h, tw/scheduler.cc) has the tasks and one round of the loop of run, and
--   Scheduler/Draining many rounds. What a fiber does until it is back is a parameter.
--   Scheduler/Draining also has the idle fiber of a scheduler that is no IOManager.
--   Scheduler/Lifecycle has the constructor, start and stop, and the caller's run of the loop.
-- * Thread (tw/thread.h, tw/thread.cc) has the guards of a mutex and, in Thread/Guards and
--   Thread/Exclusion, guards of several threads on one mutex, whose calls, and which of them it
--   refuses, are a parameter;
--   Thread/Start has the constructor and the new thread step by step, in any order.
-- * IoManager (tw/iomanager.h, tw/iomanager.cc) has the events that wait on descriptors and hands
--   their waiters to the scheduler. What epoll_ctl answers, whether the pipe can be written and the
--   scheduler of the thread are a parameter; another scheduler than the manager is no part of the
--   state. Sound and Reachable are about the states that adding and cancelling reach, RoundTrip about the one after the other;
--   Idle has a pass of the idle loop, Wakeup the pipe and the timeout of epoll_wait, and Setup the
--   constructor and the destructor with the threads of Scheduler/Lifecycle.
-- * Hook (tw/hook.cc) has the system calls that wait in the scheduler: Hook.antt the loop of do_io,
--   Hook/Wrappers the functions that use it, Hook/Sockets the calls that make, configure and close
--   descriptors, Hook/Flags fcntl and Hook/Connect connect_with_timeout. The answers of the wrapped
--   functions and what happens while a fiber is suspended are given turn by turn. A call waits on
--   the events of IoManager and the timers of Timer, and finds its descriptor in FdManager.
-- * Address (tw/address.h, tw/address.cc) has prefix masks, the order of addresses and the addresses
--   of the unix family; Address/Ipv6 has the prefixes of sixteen bytes, Address/Printing the text
--   of IP addresses, and Address/Resolve lookups and interfaces over what the C library gives.
-- * Http/Tables, Http/Headers and Http/Message (tw/http/http.h, tw/http/http.cc) are the methods,
--   status codes, header maps and messages; Http/Parser (tw/http/http_parser.cc) are the callbacks
--   of the parsing machines; Http/Session (tw/http/http_session.cc) reads a request, and
--   Http/Serving sends responses and has handleClient (tw/http/http_server.cc) over both.
-- * Stream (tw/stream.cc) has the loops that move a fixed number of bytes.
-- * Socket (tw/socket.h, tw/socket.cc) has a socket's descriptor, state and addresses over the answers
--   of the system calls; Socket/Timeouts goes through the hooks to FdManager, and Socket/Cancelling
--   to IoManager. SocketStream (tw/socket_stream.cc, tw/stream.cc) moves a ByteArray over a Socket
--   by its iovec lists.
-- * Log (tw/log.h, tw/log.cc) has levels, loggers and their appenders, Log/Output what an appender
--   prints and Log/Registry the map of loggers.
-- * TcpServer (tw/tcp_server.cc, tw/http/http_server.cc) binds and accepts, and has the loop over
--   the requests of a client that Http/Serving refines.
-- Base has the names that they share, and each part's Examples has runs at small inputs.
--
-- Numbers are natural numbers; uint64_t arithmetic that can wrap is taken modulo 2 ^ 64, and a
-- signed number is its bits. Pointers and callbacks are numbers, and a heap is a function on them.
-- A fault that the language leaves undefined, a failed assertion and an exception are values of
-- Outcome. The loops are structural recursion on what they consume: a buffer, a list of nodes, or a
-- script of what the outside world answers. The recursion of readInt32 has a depth as its fuel.
--
-- The read at a position has a round more than there are bytes, and CountBytes the 33 tests that a
-- 32-bit value needs. The loop of readFromFile has a round more than the file has bytes, each of which
-- but the last takes one or more. The run that stop calls is given its rounds. The
-- loop of do_io ends with its turns: a call that still waits has no result.
--
-- Not modelled: the machines that Ragel generated (tw/http/http11_parser.rl.cc and
-- tw/http/httpclient_parser.rl.cc), which Http/Session takes as a parameter; of threads the
-- wrappers of one call of pthread and the thread-local names; of logging how
-- a file is opened and how strftime prints a date; of sockets the options but the timeouts; and of
-- the hooks the lookup of the wrapped functions.
pub mod Base
pub mod ByteArray
pub mod Timer
pub mod FdManager
pub mod Http
pub mod Stream
pub mod TcpServer
pub mod Thread
pub mod Fiber
pub mod Scheduler
pub mod IoManager
pub mod Hook
pub mod Address
pub mod Socket
pub mod SocketStream
pub mod Log
