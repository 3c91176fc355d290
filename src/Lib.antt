-- ===== src/Lib.antt =====
-- The gateway of the stm32 board: cpp_gateway. A program of four threads between TCP clients and the
-- robot's board on a serial line. The TCP worker decodes frames of clients into mailboxes, queues and
-- the configuration; the controller turns the remote command into a motor request; the USB worker
-- writes the request to the board, reads the board's state and publishes it; the log worker drains
-- the rings of samples. They share one record of mailboxes and rings.
--
-- Parts, with the files of the repository that they model:
--   Base         tests, conditionals, lists, bits and integers over the native natural numbers
--   Core         cpp_gateway/include/core/basic.hpp
--   Wire         cpp_gateway/include/connection/wire_codec.hpp (words) and
--                cpp_gateway/src/connection/wire_codec.cpp (Wire.Messages, Wire.Payloads)
--   Framed       cpp_gateway/include/connection/framed.hpp: FrameRx and the loop that pops it
--   Ring         cpp_gateway/include/gateway/spsc_overwrite_ring.hpp; Ring.Queue is what it promises,
--                Ring.Threads has its single loads and stores
--   Mailbox      cpp_gateway/include/gateway/latest_value.hpp and stop_flag.hpp
--   Config       cpp_gateway/include/gateway/enums.hpp, commands.hpp and runtime_config.hpp
--   Shared       cpp_gateway/app/workers/shared_state.hpp
--   Tcp          cpp_gateway/app/workers/tcp_worker.cpp: helpers and configuration; Tcp.Worker has the
--                loop's body: `handle_frame` for one frame, `receive_clients` and `publish_state`;
--                Tcp.Loop has the whole worker with its sockets, `tcp_worker`
--   Controller   cpp_gateway/app/workers/controller_worker.cpp: `control_cycle` is one round
--   Rosmaster    cpp_gateway/src/rosmaster/rosmaster.cpp: the setters' bytes; Rosmaster.Receive has
--                `rx_loop` and `parse_payload`, Rosmaster.Readings the getters, Rosmaster.Device the
--                port and the receive thread
--   Usb          cpp_gateway/app/workers/usb_worker.cpp: connecting, `usb_cycle`, `usb_run`; Usb.Session has
--                the whole worker, `usb_worker`
--   System       cpp_gateway/app/gateway_main.cpp: what main stores, and the steps of all workers;
--                System.Arguments has the command line, System.Shutdown main with its threads and
--                cpp_gateway/include/utils/signal_handler.hpp
--   BinaryLog    cpp_gateway/src/utils/binary_log.cpp; BinaryLog.Rotating has
--                cpp_gateway/src/utils/rotating_binary_log.cpp, BinaryLog.Samples the samples' bytes
--   LogWorker    cpp_gateway/app/workers/log_worker.cpp: `log_round` is one round
--   Decoder      cpp_gateway/app/decode_gateway_log.cpp: `decode_log` is the part of main behind the
--                arguments; Decoder.Names has the command line and the names of the outputs
--   Client       cpp_gateway/app/tcp_client.cpp: frames and sender threads; Client.Receiving has the
--                receive loop, Client.Arguments the command line, Client.Main the sockets and main
--   Csv          cpp_gateway/src/utils/csv_recorder.cpp: rows by column names, Csv.Paths the files
--   Logger       cpp_gateway/src/utils/logger.cpp: messages, the queue, its worker and `close`;
--                Logger.Stream has the streams
--   Helper       cpp_gateway/app/helpper.cpp and cpp_gateway/src/utils/timestamp.cpp
--   Numbers      the library's number parsers, a parameter of both command lines
--   Transfer     cpp_gateway/src/connection/serial_port.cpp and tcp_socket.cpp: the loops that move
--                bytes, over the results of the system calls
--   Socket       the same files: who holds which descriptor, with a ledger of those that the system
--                gave and those that it was told to close
--   Rate         cpp_gateway/include/utils/rate_limiter.hpp
--   Float        the operations on floating-point numbers, a parameter of the parts that use them
--   Examples     runs at concrete inputs
--
-- Conventions. A float or double is its IEEE-754 pattern, a natural number; arithmetic on it is a
-- field of `Fpu`, and where a theorem needs a fact about it the fact is a hypothesis (ExactSmall).
-- Counters keep their wrap-around. A span or a buffer is a list of bytes. What the sockets, the
-- serial port and the clock answer is an argument. An encoder returns its result and the span as it
-- leaves it; a decoder returns its result and its output argument. `Rosmaster::stop` takes whether the
-- read that its receive thread is in comes to an end, which the port's settings do not promise; in
-- System.Shutdown the return of a read is an action of its own. The log keeps the list of what it
-- asks of the system, and whether a file opens or a stream is good is a function of this list.
--
-- Loops. `pop_all` and `handle_frames` run on fuel, one more than the unread bytes: each frame takes
-- three bytes at least. `decode_loop` runs on fuel, one more than the bytes of the file: each record
-- takes twenty. The loops over clients, events and rounds go through lists.
--
-- Not modelled: the interleaving of the threads inside a call (each call is one step, but for the ring
-- in Ring.Threads), the pace of the rounds (the limiter stands by itself), the texts of log lines
-- and the legacy programs: they are output, or programs of their own. System calls are arguments.
pub mod Base
pub mod Core
pub mod Wire
pub mod Framed
pub mod Ring
pub mod Float
pub mod Mailbox
pub mod Config
pub mod BinaryLog
pub mod Shared
pub mod Socket
pub mod LogWorker
pub mod Decoder
pub mod Tcp
pub mod Controller
pub mod Rosmaster
pub mod Usb
pub mod Rate
pub mod Transfer
pub mod Csv
pub mod Logger
pub mod Numbers
pub mod Client
pub mod Helper
pub mod System
pub mod Examples
