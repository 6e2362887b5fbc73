-- ===== src/Authentication.antt =====
-- src/common/authentication.cpp: the challenge and the two proofs. OpenSSL is a parameter.
pub mod Proof
pub mod Client
pub mod Server
use syncwire.Common.{
  ℕ, ◌≡◌, Bool, true, false, List, [], ◌∷◌, ◌++◌, Option, none, some, not, ◌&&◌, ◌==◌, leb,
  if◌then◌else◌, length,
}
use syncwire.Protocol.{Frame, MessageType, type_eq, new_header}
use syncwire.FrameIo.{FrameIoStatus, FrameIoResult}
use syncwire.PingPong.{frame_io_default}

abbrev pub nonce_size : ℕ
nonce_size = 32

abbrev pub proof_size : ℕ
proof_size = 32

-- SyncWire-v2-client-proof and SyncWire-v2-server-proof.
abbrev pub client_proof_domain : List ℕ
client_proof_domain =
    83 ∷ 121 ∷ 110 ∷ 99 ∷ 87 ∷ 105 ∷ 114 ∷ 101 ∷ 45 ∷ 118 ∷ 50 ∷ 45 ∷ 99 ∷ 108 ∷ 105 ∷ 101 ∷ 110
    ∷ 116 ∷ 45 ∷ 112 ∷ 114 ∷ 111 ∷ 111 ∷ 102 ∷ []

abbrev pub server_proof_domain : List ℕ
server_proof_domain =
    83 ∷ 121 ∷ 110 ∷ 99 ∷ 87 ∷ 105 ∷ 114 ∷ 101 ∷ 45 ∷ 118 ∷ 50 ∷ 45 ∷ 115 ∷ 101 ∷ 114 ∷ 118 ∷ 101
    ∷ 114 ∷ 45 ∷ 112 ∷ 114 ∷ 111 ∷ 111 ∷ 102 ∷ []

abbrev pub authentication_accepted : ℕ
authentication_accepted = 0

abbrev pub authentication_rejected : ℕ
authentication_rejected = 1

pub data AuthenticationStatus : Type 0 where
  success invalid_secret random_generation_error crypto_error frame_io_error : AuthenticationStatus
  invalid_challenge invalid_proof invalid_result invalid_server_proof rejected :
      AuthenticationStatus

pub record AuthenticationResult : Type 0 where
  pub status : AuthenticationStatus
  pub frame_io : FrameIoResult

abbrev pub result_with : AuthenticationStatus → AuthenticationResult
result_with status = record { status = status; frame_io = frame_io_default }

unfoldable pub frame_error : FrameIoResult → AuthenticationResult
frame_error error = record { status = AuthenticationStatus.frame_io_error; frame_io = error }

unfoldable pub is_auth_frame : Frame → MessageType → ℕ → Bool
is_auth_frame frame expected_type expected_payload_size =
    type_eq frame.header.message_type expected_type
    && (frame.header.request_id == 0
        && (frame.header.transfer_id == 0 && length frame.payload == expected_payload_size))

unfoldable pub make_auth_frame : MessageType → List ℕ → Frame
make_auth_frame type payload = record {
  header = new_header type (length payload) 0 0;
  payload = payload;
}

unfoldable pub is_valid_authentication_secret : List ℕ → Bool
is_valid_authentication_secret secret = leb 16 (length secret) && leb (length secret) 1024
