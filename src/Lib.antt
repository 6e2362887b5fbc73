-- ===== src/Lib.antt =====
-- SyncWire: framed TCP file transfer, verified from the bytes of a header up to the worker pool.
--
-- A client and a server exchange frames: a 32-byte header and a payload. The frames are written to and
-- read from a socket by blocking loops, or parsed from a buffer by an incremental parser. On top of
-- them stand a ping, a mutual authentication, the payloads of file transfers and the plans of a
-- directory synchronization, and the transfers, scans and synchronizations themselves, which a session
-- of the server puts together; the server accepts connections into a bounded queue for its workers.
--
-- Which file models which part (paths from the repository's root):
--   Wire             the big-endian readers and writers at the top of src/common/codec.cpp,
--                    src/common/transfer_codec.cpp and src/common/sync_codec.cpp
--   Protocol         include/syncwire/common/protocol.hpp, and Frame of frame_parser.hpp
--   Codec            src/common/codec.cpp: encode_header, decode_header
--   Parser           src/common/frame_parser.cpp: FrameParser, its consume as a function from state to
--                    state. Parser/Stream is the independent reading of a byte stream as frames,
--                    Parser/Refines one call of consume against it, Parser/Chunks a connection's reads,
--                    Parser/Failure the ways a call ends
--   Paths            is_safe_remote_path and is_safe_remote_filename of src/common/transfer_codec.cpp,
--                    and in Rules what they are to check, written out
--   TransferCodec    the payloads of src/common/transfer_codec.cpp
--   SyncCodec        the payloads of src/common/sync_codec.cpp
--   Plan             build_sync_plan of src/common/sync_codec.cpp
--   SocketIo         src/common/socket_io.cpp: send_all, recv_exact
--   FrameIo          src/common/frame_io.cpp: send_frame, receive_frame
--   Link             the two operations of frame_io.hpp as an interface for the protocols above them
--   PingPong         src/common/ping_pong.cpp
--   Crc32            src/common/crc32.cpp. Crc32/Division is the division of polynomials that it stands for
--   Authentication   src/common/authentication.cpp: Client, Server, and Proof for calculate_proof
--   FileTransfer     src/common/file_transfer.cpp. Send has send_file, over the calls on its source
--                    (Source); the rest is receive_file: Files has the calls it makes, Destination
--                    prepare_destination and within_partial_budget, Blocks the loops around ::read and
--                    ::write, Receive what happens before TransferReady, Store the rounds of the loop,
--                    Commit the rest
--   DirectorySync    src/common/directory_sync.cpp: receive_directory_sync, and in Client sync_directory
--   DirectoryManifest  src/common/directory_manifest.cpp: scan_directory, over the tree that its iterator
--                    meets
--   ClientSession    src/server/client_session.cpp: serve_client_session, which puts the authentication,
--                    the ping, receive_file and receive_directory_sync with scan_directory together
--   Server           src/server/concurrent_server.cpp: the shared state, one function per critical
--                    section or atomic operation, and the step relation over the threads
--   Tests            concrete runs
--   Common           shared names and lemmas
--
-- Bytes are numbers below 256 and byte strings are lists of them. A std::variant of a value and an
-- error is an Outcome. Unsigned integers are native numbers with their wrap-around written out
-- where the source narrows them or lets them wrap.
--
-- Bounds and fuel. The parser's loop runs on one more round than its buffer has bytes, and a round
-- takes a header at least. The socket loops run on one more round than there are signals still to come
-- and bytes still to go: every answer that lets them go on uses up one of the two. The scan of
-- a path runs on its length.
-- The loop of receive_file runs on 2 * n + 2 rounds for a file of n bytes: a chunk has a byte at least, and
-- the whole of it can be sent again once, after a restart. write_all and read_partial_prefix run on the
-- signals and the bytes, as the socket loops do.
--
-- Parameters. ::send and ::recv (Socket), with what their manual pages say of them (SocketLaws); the
-- calls of OpenSSL (Crypto), with what it documents of them (CryptoLaws). The synchronization takes an
-- interface (Destination) to the scan of a directory and to the transfer of one file, which
-- ClientSession fills with scan_directory and receive_file; sync_directory takes send_file as an
-- argument. receive_file takes the calls of the operating system and of std::filesystem that it makes (FileSystem), with what they
-- document in terms of a view of the files (FileView, FileLaws), and sends and receives that leave the
-- files alone (LeavesFiles): nothing else is at work on them, as the server's destination lock and the
-- flock of the partial file are there to see to. send_file takes
-- the calls on its source file (Source), which SourceLaws says stays as it is. A scan takes the entries
-- that its iterator meets, with what the calls about each of them answer (Forest).
--
-- Not modelled: start and run of the server; src/common/tcp_socket.cpp and include/syncwire/common/unique_fd.hpp, which wrap system calls; the
-- applications under apps; the functions that only turn a status into text.
pub mod Common
pub mod Wire
pub mod Protocol
pub mod Codec
pub mod Parser
pub mod Paths
pub mod TransferCodec
pub mod SyncCodec
pub mod Plan
pub mod SocketIo
pub mod FrameIo
pub mod Link
pub mod PingPong
pub mod Crc32
pub mod Authentication
pub mod Server
pub mod FileTransfer
pub mod DirectorySync
pub mod DirectoryManifest
pub mod ClientSession
pub mod Tests
