-- ===== src/Lib.antt =====
-- libpubsub: a C++ library for publish/subscribe communication between the processes of a mesh of
-- hosts.
--
-- The program. Each process keeps a registry of hosts, itself first, and a TCP connection to each of
-- the others, on which it speaks a protocol of text statements. A channel has a name, at most one
-- publishing host, the subscriptions of this process to it and, on the publisher, the subscriptors
-- that connected. `publish` and `unpublish` broadcast what a channel has become; `subscribe` asks the
-- publisher for a transport, by TCP or by shared memory, and connects to the one that it offers.
-- Data then goes from the publisher's subscriptors to the subscriptions, not through the mesh.
--
-- The files.
--   Base: the numbers, lists, byte strings and tests that the others share.
--   Text: src/utils/utils.cpp, the search and cutting of strings, and ENC of src/channel.h. Strings are
--     lists of bytes. Text.Split and Text.Replace hold the lemmas on them; Text.Decimal has the C
--     library's printing and reading of an `int`.
--   Socket: TCPSocket of src/utils/Socket.cpp and Socket.h. The operating system is not modelled: `sent`
--     lists what was passed to send(2), and the receive loop of `run` is a function on the buffers
--     that recv(2) returns. Socket.Ports is the choice of a port in TCPServer::TCPServer, over a
--     parameter `can_bind` for bind(2). Socket.Framing and Socket.Bounds are about the receive loop.
--   World: the objects of one process by address (classes Host, TCPSocket, ChannelImpl,
--     SubscriptionImpl, SHM, TCPServer), the vectors `hosts` and `channels`, ID and SIGNALING_PORT.
--     A call that uses a null pointer or a deleted object, or that throws, has the result `fault`.
--     World.Kept and World.Aside say what calls leave alone.
--   Server: TCPServer of src/utils/Socket.cpp, over a map from addresses to sockets. Server.Binding is its
--     constructor over a range of ports with the descriptors that a process has left; elsewhere these are
--     taken to be enough.
--   Mesh: the registry of hosts and sending, in src/mesh.cpp. Mesh.Registry and Mesh.Distinct are about
--     add_host and has_host, Mesh.Quiet and Mesh.Broadcast about Host::send and Host::broadcast.
--     Mesh.Mutex has has_host, get_host, add_host and broadcast with their LOCK and UNLOCK, over a
--     recursive mutex that is a parameter; Mesh.Locked is about threads that share it.
--   Subscription: SubscriptionImpl of src/channel.cpp, and SHM::write of src/shm.h. Subscription.Links
--     and Channel.Links go once through all that opens and closes connections, for any relation between
--     states with the laws of the record `Links`; Subscription.Kept and Process.Moves are its instances.
--   Channel: ChannelImpl of src/channel.h; Channel.State has the channel registry of src/channel.cpp and
--     what a channel says of itself. Its other children are
--     about the registry, setPublisher (Publisher), `disconnect` and `write` (Delivery).
--   Signaling: digest_message of src/signaling.cpp with the handlers of src/channel.cpp. Its children
--     are about publication (Announce), the transports, and lost connections (HostClose);
--     Signaling.Mutex has its calls with the mutex of src/signaling.cpp.
--   Peer: Host::on_receive, handle_incoming_connection and Host::on_close of src/mesh.cpp. Its children
--     are about the handshake, the taking of a socket (Takes), and two hosts that dial each other (Collision).
--   Protocols: TransportDescription of src/protocols/protocols.h and protocols.cpp, with its round trip;
--     Protocols.FreePort and Protocols.Tcp are src/protocols/tcp.h; Protocols.Pipe is
--     src/protocols/pipe.cpp and rtc.cpp, and Protocols.Padding is about the pipe's reading loop.
--     Protocols.Client is the interface of class Client, over which the transports send.
--   Shm: SHMServer and SHMClient of src/utils/shm.cpp. Shm.Handle has their constructors over the names
--     that the system holds, with Shm.Opening about them. Shm.Slot has the threads that call `write`
--     and `read` on one memory, as a step relation, and a copy that is longer than the memory goes on past its end; the other children are about its runs.
--   Api: publish, subscribe, write and parse_args of src/libpubsub.cpp, and init of src/mesh.cpp.
--     Api.Access has the accessors of src/libpubsub.h; Api.Start, Api.Announced,
--     Api.Requested with Api.Connected, and Api.Arguments are about `init`, `publish`, `subscribe` and
--     the option -h.
--   Process: what happens in a process over time. An event is a call of the application or what a thread
--     of TCPSocket::run or TCPServer::run does, with the callbacks of Mesh, Peer, Subscription and
--     Channel that stand in the socket's record; `run` takes events in any order, each with its own
--     answers of the operating system. Process.Moves is the abstract view: the ways in which hosts,
--     channels and subscriptions may change at all; Process.Channels, Signals, Hosts and Steps go through
--     the operations. Process.Grows and Process.Sound follow two invariants through the changes of
--     Moves alone. Process.Identity, Flow, Served, Dangling and Writes are
--     about whole runs.
--   Websocket: the server of src/utils/websocket.cpp, over libwebsockets, whose callbacks are a list.
--     A peer's onMessage, which the application defines, is the list of what it was called with.
--   Programs: the programs of src/bin that call the library; Programs.Dump is pubsub_dump, with dump_hosts
--     and dump_channels.
--   Tests: concrete processes on which the theorems are applied.
--
-- Conventions. The model takes each call, each callback and each message as one step, so steps do
-- not interleave inside one; only Mesh.Mutex and Signaling.Mutex look at the mutexes themselves. The source holds a mutex over add_host, get_host, broadcast, an ID
-- line, digest_message and what an opened or closed connection does to the channels; over publish,
-- subscribe, write and the other lines of Host::on_receive it holds none, and what its threads do to
-- one another inside these is outside the model. Memory is not reused: an address that was deleted
-- stays deleted. The loop of ChannelImpl::disconnect, which erases from the vector that it runs
-- over, is modelled on the vector's storage as std::vector::erase leaves it. `int` is a ℤ, and where
-- a text is read as one the model keeps 32 bits. What the operating system answers (bind, name
-- resolution, the contents of a mapping) is the record Env. An iteration of a copy, such as
-- std::remove, is written as recursion.
--
-- The library puts a NUL behind a message that it hands to a websocket peer, and a file that cannot be
-- written is not considered.
--
-- Fuel. The receive loop runs on the length of the buffer, get_free_port on the number of
-- ports up to one with no file, the search of str_replace on one round
-- more than the length of the text, and the digits of `n` on `n + 1` rounds. Each round of these
-- passes over at least one byte or digit; for str_replace with an empty search text, where the
-- source does not end, the answer is `none`.
--
-- Not modelled. libwebsockets itself, and the creation of its context; src/shm.cpp does not compile, and neither do the classes of src/protocols/shm.h, which call a
-- constructor that is declared and not defined. Other debug output, the socket
-- options, the handlers at exit, and the timing of threads are left out. A program that stores into the memory of
-- SHMServer or SHMClient through get_mem, outside `write`, is outside the model. A host whose
-- constructor throws is dropped with its call; the source leaves its pointer in `hosts`. Memory that two processes share is
-- modelled for SHMServer and SHMClient only; a mapping of a channel is private to the process.
mod Base
pub mod Text
pub mod Socket
pub mod World
pub mod Server
pub mod Shm
pub mod Mesh
pub mod Subscription
pub mod Channel
pub mod Signaling
pub mod Peer
pub mod Protocols
pub mod Api
pub mod Process
pub mod Websocket
mod Tests
pub mod Programs
