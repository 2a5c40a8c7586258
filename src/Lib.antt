-- ===== src/Lib.antt =====
-- piorun: a C++ web server library with stackful coroutines (fibers), stackless coroutines, an
-- HTTP server and a configuration module. This development models parts of it and proves them
-- correct.
--
-- How the program hangs together. Every thread of src/piorun/fiber runs the loop threadRoutine of
-- fiber.cc: it waits for events, takes the timers that are due from its time wheel, runs the
-- callbacks of both (they resume fibers), starts new fibers, and resumes the fibers that a lock
-- has signalled. Fibers meet in the locks of include/fiber/fiber.h. The HTTP server of
-- src/piorun/http runs on such fibers; a connection reads into one byte buffer and writes from
-- another.
--
-- Fiber/Wheel.antt is StTimeout and the timer part of threadRoutine (src/piorun/fiber/fiber.cc):
-- add_timeout is AddTimeout, take_all_timeout is TakeAllTimeout, timer_round is one round of the
-- loop from the arrived items on, with run_active for its inner loop. The linked list of a slot
-- is the list of its items, as Fiber/Link.antt has them in memory; what a callback does to the
-- wheel is a parameter. The loops recur on the number of slots and on the list of items, so they
-- need no fuel. Its invariant is in Fiber/Wheel/Valid.antt.
--
-- Fiber/Link.antt is the doubly linked list of the wheel's slots (StTimeoutItem and
-- StTimeoutItemLink of src/piorun/fiber/fiber.cc) in a memory of items and list heads, with
-- add_tail, pop_head, join and remove_from_link for AddTail, PopHead, Join and RemoveFromLink; a
-- null pointer is none, and a failed assertion or a write through a null pointer is the result
-- none. The loop of Join recurs on fuel, which has to exceed the number of items of the second
-- list. Fiber/Link/Seg.antt says which memory holds a list, and Fiber/Link/Represents.antt which
-- memory holds a family of lists, and what the calls do to the lists.
--
-- Fiber/Poll.antt is co_poll_inner (src/piorun/fiber/fiber.cc), the wait of a fiber for file
-- descriptors: it puts a timer into the time wheel and the descriptors into epoll, and yields.
-- The system calls, the clock, what fresh memory holds, and what comes in and changes until the
-- fiber is resumed are the fields of Kernel.
--
-- Fiber/Hook.antt is src/piorun/fiber/syshook.cc, the system calls as a fiber sees them: the
-- contexts of descriptors (FdContextManager) and the state; Fiber/Hook/Poll.antt is poll, over
-- co_poll_inner; Fiber/Hook/Io.antt has the hooks that read and write, and Fiber/Hook/Fcntl.antt
-- those that make, close and set up a descriptor. The calls of the system are the fields of
-- System. An int that may be negative is its bit pattern; where errno is read, a result is an
-- IoResult. The loop of write and send recurs on fuel; the length of the buffer is enough, since
-- a round that goes on has sent a byte.
--
-- Fiber/Quit.antt is how the threads take tasks and quit: MultiThreadFiberScheduler
-- (include/fiber/fiber.h) and the locked part of threadRoutine (src/piorun/fiber/fiber.cc), one
-- step per turn of a thread under the lock, with turns of any thread in any order.
--
-- Fiber/Env.antt is the fibers of a thread (Fiber, FiberEnvironment and GoRoutine of
-- src/piorun/fiber/fiber.cc): the call stack, the pool, and run_task for the start of a task in
-- threadRoutine. A fiber's context is not modelled: Resume is the step up to the swap, and what
-- the fiber does is the steps that follow. A write behind the call stack is the result none.
--
-- Fiber/Sync/Mutex.antt, Fiber/Sync/Semaphore.antt and Fiber/Sync/SharedMutex.antt are the
-- classes mutex, semaphore and shared_mutex (include/fiber/fiber.h, src/piorun/fiber/fiber.cc).
-- Each operation is a function on the fields; it is one atomic step, since all of it runs under
-- the lock's spin lock. The relation Step of each file has a step for each call by any fiber on
-- any thread, and one for a signalled fiber that is resumed; Reach and Trace are its runs. The
-- code returns from lock() or wait() as soon as the fiber is resumed, and so does the model.
-- Fiber/Sync/Channel.antt is the class template channel over them: write and read go on by one
-- statement at a time, and Step lets any call go on next. Fiber/Sync/ConditionVariable.antt is
-- the class condition_variable with a mutex, in the same way.
--
-- Http/Buffer.antt is the class Buffer (include/http/buffer.h, src/piorun/http/buffer.cpp).
-- Pointers are offsets; size_t arithmetic wraps at 2^64; a failed assertion, a vector beyond its
-- maximal size and an access outside the vector are the result none. What readv1 and write return
-- is an argument. Http/Buffer/Queue.antt states what a buffer promises: it is a queue of bytes.
--
-- Http/Conn.antt is the class pio::HttpConn (include/http/http_conn.h,
-- src/piorun/http/http_conn.cc), the reader of requests that stands apart from the server's own:
-- Http/Conn.antt has its state and parse_line for ParseLine, Http/Conn/Request.antt has
-- parse_request_line, parse_headers, parse_content, process_read and process for ParseRequestLine
-- to ProcessRead and Process, and Http/Conn/Reply.antt has add_response to process_write for
-- AddResponse to ProcessWrite. The two buffers are byte arrays; a pointer is an offset, and a
-- null pointer is none; an access outside a buffer is the result none. ParseLine's loop recurs on
-- the number of bytes that are left. ProcessRead's loop recurs on fuel, twice the number of bytes
-- read and two: a turn that goes on has read a line, which is at least one byte, or has looked at
-- the content once. Http/CString.antt has the functions of the C library that it calls: they look
-- at strings up to their NUL.
--
-- Http/BlockDeque.antt is the class BlockDeque (include/http/blockqueue.h), the bounded queue
-- between the log and its writing thread. A call is a step from taking the mutex up to waiting or
-- returning, and Close is three, since it notifies after it has let go of the mutex; a thread
-- that waits goes on by a notification, by a timeout, or without either, as condition variables
-- allow, and one that is notified after its time is over may come back with the timeout. Threads
-- are counted, not named.
--
-- Http/SqlConnPool.antt is the class SqlConnPool (include/http/sqlconnpool.h,
-- src/piorun/http/sqlconnpool.cpp). GetConn is three steps, since other threads may come in
-- between: its test for an empty queue, sem_wait, and the part under the mutex; get_conn is the
-- three in a row. A connection is a number; what the database returns is an argument of init.
--
-- Http/Request.antt is the class HttpRequest (include/http/httprequest.h,
-- src/piorun/http/httprequest.cpp), which reads a request from the server's buffer: parse is
-- parse, turn is one turn of its loop, take_at its switch, and parse_request_line, parse_header,
-- parse_body, parse_post and parse_path are the functions of those names. A text is its list of
-- bytes, a map is the list of its pairs in the order of their first insertion. The matches of the
-- two regular expressions are functions written by hand. The loop recurs on fuel, the number of
-- readable bytes and one: a turn that goes on has retrieved at least the two bytes of an end of
-- line. Http/Form.antt is the decoder of forms, ParseFromUrlencoded_: its loop recurs on the
-- bytes that are left, and carries what lies between its indices j and i in place of them.
-- Http/User.antt is UserVerify, with the guard of include/http/sqlconnRAII.h; mysql_query with
-- the rows of its result is a parameter, a function on a state of the database of any type, and a
-- row is its two columns. Http/Text.antt has the strings and maps.
--
-- Http/Response.antt is the class HttpResponse (include/http/httpresponse.h,
-- src/piorun/http/httpresponse.cpp): make_response is MakeResponse, resolve is its first half up
-- to ErrorHtml_, and add_state_line, add_header, add_content and error_content are the calls
-- behind it; Http/Response/Tables.antt has the tables. The file system is a parameter: stat,
-- open, and mmap, whose result is the bytes of the pages or a failure; a read through the pointer
-- of a failed mmap is the result none.
--
-- Http/Server.antt is the class HttpConn (include/http/httpconn.h, src/piorun/http/httpconn.cc),
-- which joins the parts: read fills the read buffer, process parses a request and makes the
-- reply, and write sends its two parts, the head from the write buffer and the mapped file; what
-- the kernel delivers and takes is an argument. The two pointers of iov_ are offsets into the
-- write buffer's vector and into the file.
--
-- Prelude.antt and its children hold the shared names, tests and list lemmas.
--
-- Not modelled: the context switch, the sleep functions, the stackless coroutines, the logs, the
-- configuration and the thin wrappers of system calls; memory does not run out, and the two
-- atomic positions of a buffer are used by one thread.

pub mod Fiber
pub mod Http
pub mod Prelude
