-- ===== src/Lib.antt =====
-- fishjoy: a C++ server framework, under src/ and include/fishjoy/: fibers with a scheduler, timers
-- and an I/O manager (fiber), sockets, descriptors and buffers (net, streams), HTTP (http), logs
-- (log), and configuration, threads and utilities.
--
-- How the parts interact. A fiber that waits for a descriptor registers an event with the I/O
-- manager, or a timer with the timer manager that the I/O manager is built on. The idle fiber of the
-- I/O manager waits in epoll_wait no longer than the next timer allows, schedules the callbacks of
-- the expired timers, and triggers the events that have occurred. The hooked system calls ask the
-- manager of descriptors for the state of a descriptor. A stream moves whole runs of bytes, into
-- memory or into a ByteArray. An HTTP server gives each request to the dispatch, which finds the
-- servlet for its path.
--
-- Which file models which part:
-- Base, Base/Tests, Base/Lists, Base/Results: Boolean tests, list operations, and results with errors.
-- Endian: include/fishjoy/net/endian.hpp (byteswap, byteswapOnLittleEndian, byteswapOnBigEndian).
-- ByteArray and the files below it: src/net/bytearray.cpp. The record holds the fields of the class;
--   addCapacity, write, read, setPosition, toString and clear are functions of the same names.
--   ByteArray/Fixed, Varint, Zigzag and Strings have the integers and strings on top of them.
-- Timer and below: src/fiber/timer.cpp (Timer, TimerManager): addTimer, cancel, refresh, reset,
--   getNextTimer, detectClockRollover, listExpiredCb and hasTimer.
-- IoManager and below: src/fiber/iomanager.cpp: getEventContext, triggerEvent, contextResize,
--   addEvent, delEvent, cancelEvent, cancelAll, stopping, and the body of idle for one event.
-- Servlet and below: src/http/servlet.cpp (ServletDispatch and the creators).
-- FdManager and below: src/net/fd_manager.cpp (FdCtx, FdManager).
-- Stream and below: src/streams/stream.cpp (readFixSize, writeFixSize).
-- LogFile and below: src/log/log_file.cpp and src/log/log_buffer.cpp.
-- Url and below: UrlEncode, UrlDecode and the trims of src/utils/util.cpp.
-- Scheduler and below: src/fiber/scheduler.cpp and its header (schedule, stop, stopping, run, idle). The
--   threads are workers that stand at places of the loop of `run`; one step of one worker is what it
--   does under the lock, or a test or a write of a fiber's state, and a history is a list of steps.
-- Fiber and below: src/fiber/fiber.cpp (Fiber), for one thread: getThis, the constructors, reset,
--   resume, yield, MainFunc and the destructor. A context is the flow of control that it goes on with.
-- Http and below: src/http/http.cpp and include/fishjoy/http/http.hpp. Http/Maps has the maps without
--   case, Http/Methods the conversions, Http/Dumping the dumps; Http/Framing has a reader of messages,
--   and Http/Lines the lines that a message is to have, which are no part of the program.
-- Address and below: src/net/address.cpp (the masks of networks, CountBytes, the comparisons);
--   Address/Names has what Lookup asks the resolver for, and UnixAddress.
-- ThreadPool and below: include/fishjoy/thread/threadpool.hpp (ThreadPool), as lists of steps.
-- LogFormatter and below: src/log/log.cpp (LogFormatter::init, how a pattern becomes items).
-- ByteArray/Refinement: what a buffer is for its clients, a flat sequence of bytes with a place.
-- Timer/Histories: the operations of a timer manager in sequence.
--
-- Conventions. Objects that are shared have addresses in a heap (timers, descriptor states). An
-- exception, a read through a null pointer and a failed assertion are errors of a result type. The
-- clock, epoll_ctl, fnmatch, fstat, isxdigit, strcasecmp, strcasestr, isalpha, fwrite, the decimal digits of a
-- number, the tables of methods and status codes, and the virtual read and write of a stream are arguments. A
-- lock makes an operation one step.
--
-- Fuel. The loops of `write` and `read` in a buffer have as much as there are bytes to move, and a
-- round moves one at least where the offset is inside its block. The loop of the variable-length
-- writer has the size of its scratch array: 5 bytes hold 32 bits and 10 hold 64, seven to a byte. The
-- loops of a stream have the length asked for. The parser of pairs has one round for each byte, and a
-- round uses up a `=`. CountBytes on a byte has eight rounds, one for each digit. Sizes of buffers, counts and descriptors are
-- unbounded; bit patterns, times and the clock's differences wrap as written out.
--
-- Not modelled: the copy of http_parser in src/http/http-parser, and what drives it
-- (http_parser.cpp, http_session.cpp, http_connection.cpp, http_server.cpp, uri.cpp); sockets and
-- the TCP server, the resolver and the interfaces of the host, which are calls of the system; how
-- the scheduler makes and joins its threads, and the hooks; the futures of the thread pool and the
-- wait of its destructor; the printing of addresses; the logger's items, levels and appenders, the
-- configuration, and the files, time and conversions of the utilities; in a ByteArray the files,
-- the hexadecimal dump and the iovec lists.
pub mod Base
pub mod Endian
pub mod ByteArray
pub mod Timer
pub mod IoManager
pub mod Servlet
pub mod Url
pub mod LogFile
pub mod FdManager
pub mod Stream
pub mod Scheduler
pub mod Fiber
pub mod Http
pub mod Address
pub mod ThreadPool
pub mod LogFormatter
