-- ===== src/Lib.antt =====
-- A model of libsponge, the TCP implementation of this repository, and what is proved of it.
--
-- Parts and files. A byte stream (libsponge/byte_stream.cc, ByteStream.antt) is a bounded queue between
-- a writer and a reader. The reassembler (libsponge/stream_reassembler.cc, Reassembler.antt) puts
-- excerpts that arrive out of order and overlap into such a stream. Sequence numbers modulo 2 ^ 32 are
-- turned into 64-bit indices and back (libsponge/wrapping_integers.cc, WrappingInt32.antt). The receiver
-- (libsponge/tcp_receiver.cc, TcpReceiver.antt) hands the payloads of segments
-- (libsponge/tcp_helpers/tcp_segment.hh and tcp_header.hh, TcpSegment.antt) to the reassembler, and
-- computes the acknowledgment number and the window. The sender (libsponge/tcp_sender.cc, TcpSender.antt)
-- cuts an outbound stream into segments, keeps those in flight and retransmits on its timer. The
-- connection (libsponge/tcp_connection.cc, TcpConnection.antt) joins a receiver and a sender.
-- Exchange.antt is about a segment of a sender that reaches a receiver, also over the network.
-- TcpState.antt has the summaries of a connection (libsponge/tcp_helpers/tcp_state.cc). The network interface (libsponge/network_interface.cc,
-- NetworkInterface.antt) carries datagrams in Ethernet frames and learns addresses by ARP; the serialized
-- forms of datagrams and ARP messages are a parameter of it, `Codec`.
-- The router (libsponge/router.cc, Router.antt) moves datagrams between network interfaces.
--
-- Bytes on the wire. A buffer (libsponge/util/buffer.cc, Buffer.antt) is a string less its front; a
-- BufferList is a list of them. The parser and its counterpart (libsponge/util/parser.cc, NetParser.antt)
-- read and write integers in network byte order, and the checksum is that of libsponge/util/util.cc
-- (InternetChecksum.antt). On them stand the formats of libsponge/tcp_helpers: TCP segments
-- (tcp_header.cc, tcp_segment.cc, TcpSegment/Wire.antt), IPv4 datagrams (ipv4_header.cc,
-- ipv4_datagram.cc, Ipv4.antt), Ethernet frames (ethernet_header.cc, ethernet_frame.cc, Ethernet.antt)
-- and ARP messages (arp_message.cc, Arp.antt). The adapters (tcp_over_ip.cc, fd_adapter.cc,
-- tuntap_adapter.hh, lossy_fd_adapter.hh, TcpOverIp.antt) put segments into datagrams and take them out,
-- and choose those that belong to their connection; TcpOverIp/OverEthernet.antt joins them to a network
-- interface with these formats.
--
-- The thread of a socket. A file descriptor (libsponge/util/file_descriptor.cc, FileDescriptor.antt) has
-- flags and counters beside the number that the system knows. The event loop (libsponge/util/eventloop.cc,
-- EventLoop.antt) polls the descriptors of its rules and calls their callbacks; a callback is a function
-- on the state that the callbacks of the program share by reference. TCPSpongeSocket
-- (libsponge/tcp_helpers/tcp_sponge_socket.cc, SpongeSocket.antt and SpongeSocket/Loop.antt) has four
-- such rules: datagrams go from an adapter to the connection, the application's bytes into it, its inbound
-- bytes to the application, and its segments to the adapter. The adapter is a parameter, `AdapterOps`,
-- which SpongeSocket/Tun.antt gives for a TUN device. What the system answers (to reads and writes, to
-- `poll`, to the clock) and what another thread sets is an argument, or stands in the state as a list of
-- answers; a loop that waits for the system is a recursion on what has come so far, and may still be going
-- at its end. The same event loop copies between the standard streams and a socket
-- (apps/bidirectional_stream_copy.cc, StreamCopy.antt).
--
-- Correspondence. A class is a record with its members less the leading underscore, a method that
-- changes the object is a function that returns the new state, and its result if it has one beside it.
-- A name that two classes share stands in the module of its class. `std::queue` and `std::string` are
-- lists of bytes, front first, and `std::map` is a list sorted by key whose iterators are keys. Unsigned
-- arithmetic is on numbers with the wrap at 2 ^ 32 or 2 ^ 64 written out (Prelude/Words.antt). Prelude
-- has the Boolean tests, the conditional and the list lemmas that the parts share. Each part's file
-- has the definitions; the modules below it have the lemmas, and Tests the runs at concrete inputs.
--
-- Loops. Loops over a list are recursion on it. `try_assemble` runs on fuel 2 * n + 2 for n stored
-- segments, which is enough since a round moves the iterator forward and inserts at most one segment;
-- the loop of `push_substring` runs on n + 1, since each round writes one stored segment out and none
-- comes back; running out is `none`, and shown not to happen in valid states. The loop of `fill_window`
-- runs on one more than the bytes of the stream plus the sequence numbers left to send, and a round that
-- goes on uses up one of them; the fuel is shown never to be what ends it.
--
-- Faults. `Option` stands for what may fail: a use of an iterator that was erased, or an exception. The
-- sequence of `queue.front()` and `queue.pop()` in `_clear_sender_buffer`, which keeps a reference to the
-- segment that it destroys, is modelled as what it is meant to do.
--
-- An exception of a serializer, of `Buffer::remove_prefix` or of the conversion of a BufferList to a
-- Buffer is `none` too. A parse returns the object with its result, `ParseResult`, beside it; the object
-- is a new one, as it is in every call. Reads in sequence are a `do` block over the parser's state. The
-- loop of `InternetChecksum::value` runs on fuel 2, which ends it for every 32-bit sum.
--
-- Assumptions of the theorems. A stream is a function from indices to bytes with a size below 2 ^ 64;
-- capacities are such that indices do not overflow. Sequence numbers are recovered only within 2 ^ 31 of
-- the checkpoint, which the hypotheses state. A byte is a number below 256, and the fields of a header
-- that is serialized fit their widths.
--
-- Not modelled: the texts that the formats print of themselves, and, since they only wrap the operating
-- system, the other members of the sockets, the resolution of names, the start and the end of the
-- threads of TCPSpongeSocket and the main programs in apps.
pub mod Prelude
pub mod ByteStream
pub mod WrappingInt32
pub mod Reassembler
pub mod TcpSegment
pub mod TcpReceiver
pub mod TcpSender
pub mod TcpConnection
pub mod Exchange
pub mod TcpState
pub mod NetworkInterface
pub mod Router
pub mod Buffer
pub mod NetParser
pub mod InternetChecksum
pub mod Ethernet
pub mod Arp
pub mod Ipv4
pub mod TcpOverIp
pub mod FileDescriptor
pub mod EventLoop
pub mod SpongeSocket
pub mod StreamCopy
