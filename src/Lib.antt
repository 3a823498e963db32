-- ===== src/Lib.antt =====
-- RiftNet, a message library over UDP: a reliable or unreliable payload is compressed, put in a packet,
-- sealed with the keys that a cleartext handshake agreed on, and sent as one datagram.
--
-- The parts and their files (paths of the repository):
--   * RiftNet/src/protocol/Packet: Protocol/Packet. The packed headers and their bytes in memory on a
--     little-endian host.
--   * RiftNet/src/protocol/PacketFactory: Protocol/PacketFactory. ParsePacket is parse_packet, the
--     functions Create... are create_....
--   * RiftNet/src/protocol/UDPReliabilityProtocol: Protocol/Reliability. ProcessIncomingHeader is
--     process_incoming_header, which is process_acks (the loop over the sent packets) and then
--     update_receive_window; PrepareOutgoingPacket, ProcessRetransmissions, IsConnectionTimedOut
--     and ApplyRTTSample keep their names. Its children prove: Sequence, the order of sequence
--     numbers; Bitfield and Window, the receive window as a set; Headers, what acknowledgements leave
--     alone; Delivery, runs over arriving headers; Acks, the acknowledgement of sent packets; Timers,
--     the timeouts; Reachable, the invariants.
--   * RiftNet/src/security/Crypto: Security/Encryptor, with Nonce, Sealing and Channel.
--   * RiftNet/src/security/Handshake: Security/Handshake.
--   * RiftNet/src/compression/Compressor: Compression.
--   * RiftNet/src/core/connection: Connection. One function for each method of the class; the two
--     callbacks are the values of Output, in the order in which they are called. Its children prove:
--     Queue, the limit of the queue; Establish, the handshake; Pipeline, one side to the other;
--     Emissions, all that a connection ever transmits; Race, what
--     several threads in SendPacket do.
--   * RiftNet/src/core/threading: ThreadPool. A run is any sequence of the steps of Action;
--     turn i is the next step of the i-th worker's worker_loop. Its children prove: Order, first in
--     first out; Turns, what a turn can be; Stop, when workers return; Termination, the end of a
--     stopped pool; Hang, how stop can fail to end.
--   * RiftNet/src/api/RiftClient: Client. Connect, Disconnect, Send and OnRawDataReceived keep their
--     names; update_client is one round of the loop of Update. Running and Connecting are its proofs.
--   * RiftNet/src/api/RiftServer: Server. Start, Stop, Send, Broadcast, OnRawDataReceived,
--     FindOrCreateConnection and DisconnectClient keep their names; update_server is one round of the
--     loop of Update. A connection object is in a heap, under the id of the client that it was made
--     for, and the maps hold pointers to it. Its children: Endpoint, the keys of the map of addresses;
--     Calls, any sequence of what the threads do under the mutex; Acts, every operation as a sequence
--     of elementary changes; Maps, how the two maps agree; Roster, the specification of the events,
--     which the server refines; Senders, where it sends; Sending and Timeouts; Meeting, a client and
--     a server that agree on keys; FirstMessage, from there to the first message; Messages, a message each way; Late, what comes late.
--   * The C functions of both, rift_server_... and rift_client_...: Api.
--   * RiftNet/src/core/riftnetio, with RiftNet/src/core/networkio: Network. The socket, and in which
--     place each I/O context is. Contexts and Runs have the invariant, Starting has Start, and Idle
--     what becomes of a context that was put back.
--   * RiftNet/src/core/iocpmanager: Ports. turn is the next step of a worker's WorkerThread; Stop is
--     begin_stop, its joins, and finish_stop. The end of a worker's wait and its call of the callback
--     are two steps. Order, Exits and Starting are its proofs.
--   * Base has what these share: tests, lists, maps, bytes, bits, signed differences. Examples has the
--     theorems at concrete inputs.
--
-- Conventions. State is passed explicitly. Numbers are natural numbers, with the wrap-around of the
-- 16-, 32- and 64-bit types written out; a payload is shorter than 2^32 bytes, so that the casts of its
-- size to 32 bits change nothing. `none` as the result of an operation on a state is undefined
-- behaviour (a shift by 32 or more, or a mutex that its thread locks again). A time is the count of nanoseconds of steady_clock, an argument
-- of the function that reads the clock. A mutex is held for a whole operation, so operations are
-- atomic and a run is a sequence of them; in the thread pool, whose flags are changed without the
-- mutex, a wait is two steps, and in the server what is done outside the mutex is a step of its own:
-- the processing of a packet, and the event of a client that was taken out of the maps, which `leaving`
-- lists until then.
-- Loops are recursion on the list that they run over, or on a number: there is no fuel.
--
-- Parameters, since their source is not in the repository or is hardware: float arithmetic (Floats),
-- the RiftEncrypt library (CryptoLibrary), the RiftCompress library (CompressionLibrary). What
-- theorems need of them stands in FloatLaws, CryptoLaws and CompressionLaws, which Examples/Toys fills.
--
-- The answers of the system (sockets, completion ports, threads) are arguments of the operations that
-- ask for them, and every theorem holds for all of them.
--
-- Not modelled: what a datagram's buffer holds between the system and the event handler; logging; and
-- the benchmark programs.
-- Operations that different threads start on one connection are taken as whole calls, one after
-- another, although only the reliability state has a lock; for SendPacket, Connection/Race says what
-- becomes of the nonce when they are not.
pub mod Base
pub mod Protocol
pub mod Security
pub mod Compression
pub mod Connection
pub mod ThreadPool
pub mod Client
pub mod Server
pub mod Network
pub mod Ports
pub mod Api
pub mod Examples
