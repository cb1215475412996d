-- ===== src/Lib.antt =====
-- A model of octnet-tftp: a TFTP server and clients over asio, with the packets, files and netascii
-- conversion that they stand on.
--
-- The parts, each with the code that it models:
--   Wire: the packets of common/. Packet has the types of packet.hpp and the constants of defs.hpp,
--     Builder the `serializer` and `build_packet` of packet_builder.hpp, Deserializer the class of
--     deserializer.hpp, Parser the functions of packet_parser.hpp, Options the map of a request's
--     options. Encoding and WellFormed describe the layout, and which packets have one, apart from
--     the code.
--   Io: Interface has `reader` and `writer` of common/io.hpp, as records of operations, with the
--     laws by which a client knows them; File is common/file_io.hpp, Netascii
--     common/netascii_io.hpp, Text common/string_utils.hpp, and Manager server/io_manager.hpp with
--     its implementation in server_app/default_io_manager.hpp.
--   Blocks: in Cut, a file cut into blocks of 512 bytes; in Datagrams, the DATA and ACK packets of a
--     transfer and their numbers.
--   Net: what the connections use of asio, and in Pending which operations are under way.
--   Network: two machines and the datagrams between them. A machine promises what it does on each
--     block or acknowledgement, on a timeout, and on whatever else happens to it; Order and Progress
--     build on the promises alone. Fetch and Push are a client with any machine that keeps
--     them. In the Server modules of Download and Upload this is a server, which serves others.
--   Server: ReadConnection is server/read_connection.hpp and WriteConnection
--     server/write_connection.hpp. A connection opens its file through the manager, and its
--     handlers build and parse packets and read or write the file. Each keeps the promise of a
--     machine of Network. Connection is server/connection.hpp: either of the two; Connection/Pending
--     and Connection/Silence run it with the operations that it has pending. Registry and
--     Service are server/server.hpp and server/server_settings.hpp: the set of connections with the
--     request handler, and the server. Acceptor is server/server_acceptor.hpp, over any request
--     handler (server/request_handler.hpp): it parses datagrams for the server, which makes a
--     connection of a request, and is called back when a connection ends. Registry/Failures is about
--     a connection whose start throws, Registry/Apart and Registry/Sent are about one connection
--     among the others, and Registry/Machine takes the server for the machine of one of its
--     connections.
--   Client: what is asked of a client, of client_app/request.hpp, and in Get the download of
--     client_app/client_get.hpp, with the handlers of a connection and the resolver before them,
--     and in Put the upload of client_app/client_put.hpp.
--   Apps: the two programs, server_app/server_app.hpp and client_app/client_app.hpp, which make the
--     server and the client, start them and run the event loop.
--   Base: shared names, Boolean tests, and lemmas on lists and numbers.
--
-- How the state and the operations correspond: a class is a record of its members, and a method a
-- function of the same name from the state to the state and what it returns. `m_` is left off. An
-- exception is a result, a null pointer is `none`, and a buffer is the list of the bytes in use.
-- Bytes and 16-bit words are native numbers with `% 256` and `% 65536` where the code stores or casts
-- them; the retry counter, an `int`, is an integer. A handler of a connection returns, with the new
-- state, the asio operations that it starts, in the order of the calls; their completions are further
-- calls of handlers, with any error code. A call through a null `unique_ptr`, which is undefined in
-- C++, gives a failed result. A packet is dispatched on its class where the code switches on its op
-- and casts.
--
-- Parameters: endpoints are any type with `==`. The files are a function from a path and a mode to
-- streams, a stream of the C library has contents that it delivers and maybe an error at their end,
-- or room for what is written to it.
--
-- Fuel: only the loop of `parse_file_req` over the options takes any, the number of bytes that are
-- left; each round takes two of them at least.
--
-- The network loses, repeats and reorders datagrams: what is under way is a list, any datagram of it
-- may arrive at any time, stays in it when it does, and may vanish. Timeouts come at any time. Each
-- datagram that arrives is received, whether or not a receive is asked for: in this the model has more
-- runs than the program, and the theorems hold of all of them. Between the datagrams of a transfer and
-- its timeouts come, in any order, packets of anyone at the socket for requests, completions of the
-- operations of other connections, completions of sends, timers and receives with an error, datagrams
-- of third parties, and stops. A client takes its first block or acknowledgement from any source; the runs are those in
-- which that one does not come from a third party, or from a connection made for a repetition of the
-- request. The files of connections are apart: what one writes, no other reads, writes or opens, though
-- a repeated write request would open and truncate the same file. Transfers over the network are of
-- fewer than 65535 full blocks, before the numbers wrap.
--
-- The heap of connections is a function from addresses, which are given in turn; whether a socket
-- opens and binds is a parameter. A call of the server by a handler, which is its last step, is made
-- on the state that the handler leaves. A method that throws gives, with the exception, the state and
-- the effects of the calls before it (Server/Result); the start of a connection whose socket opens and
-- does not bind leaves the socket open, and the connection in the set.
--
-- In Connection/Pending a receive, a send and the timer come back only if they are pending, but for a
-- timeout that was queued when its timer was cancelled. A wait of the timer has no error but that it
-- is aborted.
--
-- Not modelled: what is printed; the ownership of objects (make_unique.hpp), but for that of the
-- acceptor; the event loop and the bodies of asio; the functions main, which call run.
pub mod Base
pub mod Wire
pub mod Io
pub mod Blocks
pub mod Net
pub mod Network
pub mod Server
pub mod Client
pub mod Apps
