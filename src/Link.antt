-- ===== src/Link.antt =====
-- send_frame and receive_frame (include/syncwire/common/frame_io.hpp), as the protocols above them
-- see a connection.
use syncwire.Common.{Outcome}
use syncwire.Protocol.{Frame, default_max_payload}
use syncwire.SocketIo.{Socket, SocketLaws}
use syncwire.FrameIo.{FrameIoResult, send_frame, receive_frame}

-- A connection with its two operations. A World holds all that they depend on.
pub record Link : Type 1 where
  pub World : Type 0
  pub send : Frame → World → FrameIoResult × World
  pub receive : World → Outcome FrameIoResult Frame × World

-- The link that a connected socket is.
abbrev pub socket_link : (s : Socket) → SocketLaws s → Link
socket_link s laws = record {
  World = s.World;
  send = send_frame s laws;
  receive = receive_frame s laws default_max_payload;
}
