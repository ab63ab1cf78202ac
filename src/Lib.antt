-- ===== src/Lib.antt =====
-- The servers of the alarm system: voice_server carries voice from clients to devices (cameras),
-- deviceOnline and userOnline keep devices and users logged in. This library models the logic of
-- the three, as far as it is the program's own.
--
-- The parts of voice_server and how they interact. The master accepts connections and deals them out
-- to the worker threads (Intake: voice_server/src/master.cc, and the queue of worker.cc). A worker
-- thread reads the bytes of a connection into its buffer and cuts them into messages (Worker:
-- `ClientTcpReadCb` of voice_server/src/worker.cc, Worker/Json for the JSON protocol); it hands each
-- to the dispatcher (Dispatcher: `TlvDispatcher` of voice_server/src/dispatcher.cc), whose handlers
-- build and free voice channels (VoiceChannel: voice_server/src/voice_channel.cc), forward messages
-- to a device, and pass the device's answers back. A forwarded message waits in the timer queue
-- (Timers: voice_server/src/push_msg_timer_queue.cc) for its answer or its timeout. Messages are
-- built from blocks (Tlv: voice_server/src/tlv_define.h and the Pack functions) of encoded integers
-- (Coding: voice_server/util/coding.cc and coding.h), and put on a socket by `WriteSfd` (Net:
-- voice_server/include/socket_wrapper.h). Times are those of voice_server/util/utime.h (Time).
--
-- The parts of deviceOnline. The main thread hands connections to worker threads in turn (Handover:
-- deviceOnline/src/worker_threads.cc) by linked queues (ConnQueue), and the workers keep the connections
-- that are not in use on a list (ConnPool). A worker collects the bytes of a connection and cuts them into
-- lines (Lines, with the string functions of public/utils.h in Text). A device's messages log it in and
-- keep it online, and its end cleans up (Device: deviceOnline/src/logic_opt.cc and worker_threads.cc); what is known of it is
-- kept in redis, through a pool of connections (Redis: deviceOnline/src/redis_conn_pool.cc and
-- redis_opt.cc, and in Redis/Cache the cache functions of logic_opt.cc). A thread pushes messages to
-- devices, which then wait for a response (PushQueue: deviceOnline/src/push_msg_queue.cc, and `push_turn`
-- of Device). All functions of `CRedisOpt` are in Redis and Redis/Opt.
--
-- userOnline has the same threads, queues and pool; User has its own logic (userOnline/src/logic_opt.cc):
-- a user's beacons, whose session is looked up in redis and under which the user's socket is stored; and
-- User/Clearing the loop of userOnline/src/user_alive.cc that empties the store at the start.
--
-- Files. Base holds the shared names, tests, lists, byte strings, C integers and maps; Errors the
-- codes of public/error_code.h. Connection holds the state that a handler can reach: the connection's
-- fields, the channels, the timers, the message counter and what was put on each socket; Env is what
-- the program does not decide: the kernel's replies to `send`, the clock and the configured timeout; so
-- does Device's Env for redis, libjson and `getpeername`. Redis/Commands has what a redis server that
-- serves is relied on for, and User/Serving what userOnline relies on.
-- Dispatcher/Handler has the monad of the handlers, Dispatcher/Channels and Dispatcher/Push the
-- handlers; each of the other modules has its operations in the file of its name, one function per
-- C++ function under its name in snake_case, and its proofs in the modules below it. The modules called
-- Tests run the definitions on concrete inputs.
--
-- Conventions. Numbers are natural numbers; an unsigned w-bit result is taken modulo 2 ^ w where it can
-- wrap. A pointer into a string is the list of the bytes from there to the end of the object. `none` as
-- the result of a handler or of an operation on the timers is undefined behaviour or a failed assertion.
-- A mutex makes each function that it guards one step; any interleaving is a list of steps. The order of
-- keys in a map is not observed. `new` does not fail, and logging is left out.
--
-- Fuel. The loop over the messages of a buffer can run for ever, so it is on fuel, and the fuel that
-- is enough is part of the theorem; so are the inner read loop and the timer thread's inner loop,
-- whose theorems say that fuel above the number of bytes of room, or of messages, is enough, and the
-- encoder of 64-bit variable length integers, for which ten rounds are, and the loop that empties the
-- store, for which one round more than the server's pages is, and `SplitData`, for which one round
-- more than the text is long is enough. `WriteSfd` is a recursion on the list of the kernel's
-- replies.
--
-- Not modelled: JsonDispatcher of voice_server and everything that calls libjson, hiredis, libevent or
-- log4cxx beyond what is a parameter here; what userOnline has in common with deviceOnline is modelled once;
-- start-up, sockets and threads; configuration and logging; the checksum.
pub mod Base
pub mod Errors
pub mod Coding
pub mod VoiceChannel
pub mod Text
pub mod Lines
pub mod Time
pub mod Timers
pub mod Intake
pub mod Net
pub mod Connection
pub mod Tlv
pub mod Dispatcher
pub mod Worker
pub mod Redis
pub mod PushQueue
pub mod Device
pub mod User
pub mod ConnQueue
pub mod ConnPool
pub mod Handover
