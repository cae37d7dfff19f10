-- ===== src/Lib.antt =====
-- snet is a header library for networking on epoll: connections that cut a byte stream into
-- packages, their factory, a listener that spreads clients over workers, pipes (named sessions over
-- a connection), timers on a heap, URLs, a byte ring, and HTTP on top.
--
-- The parts and their files, with paths from the repository's root:
-- * LoopBuffer (LoopBuffer.antt and LoopBuffer/): include/utils/loop_buffer.h. `push`, `pop`, `read`,
--   `commit`, `mpush`, `peek`, `clear` are the methods of these names. ByteQueue.antt is what the
--   ring promises. The array is a function from indices; counters are 32-bit words.
--   Size is about the size of the array, Bounds about where it is touched.
-- * NotifyQueue (NotifyQueue.antt): include/utils/notify_queue.h, with a set as an ordered list.
-- * Tcp (Tcp/): include/tcp/tcp_connection.h (Types, Connection, Input, Lifecycle), tcp_factory.h
--   (Factory), tcp_listener.h (Listener, Listener/Socket for its start and stop, Listener/Broadcast),
--   tcp_connector.h (`connect` in Listener, and Connector) and epoll_worker.h (Worker). `Conn` is
--   TcpConnection; the calls that it makes on its worker and on its factory are listed in `log`.
--   `Handler` holds the virtual methods, and `Kernel` what `send` and `recv` answer. Framing, Segments
--   and Stream are about the input, Sending about the output, Status about the life of a connection.
--   Keeps, Reading, Reader, SendEnd, Ending and Closing follow `process_event` from its start to its
--   end, for Worker/Registry, Worker/Batch and Worker/Rounds, where a worker drives the connections
--   of a factory: the tasks that a connection posts are read off its `log`, and take it out of the
--   factory's map.
--   Threads has threads that call `msend` and `close` at once, turn by turn, Emptied a kernel that never
--   makes `do_send` wait, and Reconnect the timer of
--   `enable_reconnect`. Listener/Making is about the constructors of the listener.
-- * Pipe (Pipe/): include/pipe/pipe_connection.h and pipe_factory.h. `pipe_handler` fills the
--   `Handler` of a connection, so a pipe is a TcpConnection whose packages are messages. Handshake and
--   Meeting have its two sides meet. TcpPipe is tcp_pipe.h: the sessions, and the listener and
--   connector that share a factory.
-- * Timer (Timer/): include/utils/min_heap.h (MinHeap) and heap_timer.h (HeapTimer). Nodes stand in a
--   store, so that the map and the heap share them. Expiry, Loop and Starved are
--   about `timer_loop`.
-- * Url (Url.antt and Url/): NetUrl of include/utils/net_url.h.
-- * Echo (Echo.antt and Echo/): src/tcp_server.cpp, a program of its own: an echo server on select.
--   Sound is about its set of descriptors, Visit about the loops on one of them, Ends about `main`.
-- * UserSession (UserSession.antt): src/user_session.h, the session of the samples demoserver.cpp and
--   democlient.cpp, a class of TcpConnection that sends back what it reads.
-- * Http (Http/): include/http. Message is http_message.h, Encoder http_encoder.h, Decoder
--   http_decoder.h, Response http_response.h, Connection http_connection.h and http_factory.h, Server
--   http_server.h. The parser under the decoder is a parameter: the row of callbacks that an input
--   makes. What a handler does is one too. Dispatch puts the decoder under the connection,
--   Serving and Exchange the connection under `process_event`, and Routing the factory's routers
--   over it.
-- * Prelude holds the shared lists, Boolean tests, memory blocks, masks and maps; Tests runs the
--   definitions and the theorems.
--
-- Fuel: `do_send` calls itself only after it has sent at least one byte, so one more than the bytes
-- that wait is enough. `package_loop` takes at least one byte in each round, so one more than the
-- bytes in the buffer is enough. `do_read` ends with twice the calls of `recv` that are left until the
-- socket is empty, and one, if its class always takes something off a full buffer (`calls_left` of
-- Tcp/Ending); for another class no fuel is enough (Tcp/Full). `timer_loop` takes one node off the heap
-- in each round, so one more than the nodes is enough where no timer is started again;
-- for one that is due again at once no fuel is enough (Timer/Starved). The loops of Echo on one
-- descriptor go on as long as system calls succeed, and the loop over descriptors ends below
-- FD_SETSIZE: one more than the calls until nobody connects or sends, and than FD_SETSIZE, is enough.
--
-- Outside the program, as parameters: system calls, the clock, the C++ heap algorithms, `stoi` and
-- `to_string`, and the functions that users set. What becomes of a call in a connection's `log` is
-- Worker's: `add_event` and `mod_event` there close a descriptor that epoll refuses, and a connection
-- is not told of it, as in the source; theorems on one connection say what it asked for. Locks are taken as they are written: what one holds
-- is one step. Not modelled: include/http/http_client.h, which calls a method that its connector does
-- not have; the start of threads (a worker's loop is a function of what `epoll_wait` answers, and the
-- threads of Threads are a list); logging; the other programs of src; and the copies of other projects
-- (include/http/http_parser.h, http_url.h, include/utils/string_view.h).
pub mod Prelude
pub mod ByteQueue
pub mod LoopBuffer
pub mod NotifyQueue
pub mod Tcp
pub mod Pipe
pub mod Timer
pub mod Url
pub mod Echo
pub mod UserSession
pub mod Http
pub mod Tests
