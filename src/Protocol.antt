-- ===== src/Protocol.antt =====
-- include/syncwire/common/protocol.hpp and the data types of codec.hpp and frame_parser.hpp:
-- message types, frame headers, frames, and the errors of the header codec.
use syncwire.Common.{
  ℕ, ◌*◌, ◌≡◌, refl, ap, Bool, true, List, Option, none, some, ◌==◌, ==_iff, ==_self, if◌then◌else◌,
  arith,
}

-- kMagic, kVersion, kWireHeaderSize and kDefaultMaxPayload.
abbrev pub magic_number : ℕ
magic_number = 0x53574952

abbrev pub protocol_version : ℕ
protocol_version = 2

abbrev pub wire_header_size : ℕ
wire_header_size = 32

abbrev pub default_max_payload : ℕ
default_max_payload = 1024 * 1024

pub data MessageType : Type 0 where
  ping pong auth_challenge auth_proof auth_result upload_request download_request : MessageType
  transfer_ready file_chunk acknowledgment transfer_complete transfer_result : MessageType
  sync_manifest sync_plan sync_complete sync_result error : MessageType

-- static_cast<std::uint8_t>(type).
unfoldable pub type_code : MessageType → ℕ
type_code ping = 0x01
type_code pong = 0x02
type_code auth_challenge = 0x10
type_code auth_proof = 0x11
type_code auth_result = 0x12
type_code upload_request = 0x20
type_code download_request = 0x21
type_code transfer_ready = 0x22
type_code file_chunk = 0x23
type_code acknowledgment = 0x24
type_code transfer_complete = 0x25
type_code transfer_result = 0x26
type_code sync_manifest = 0x30
type_code sync_plan = 0x31
type_code sync_complete = 0x32
type_code sync_result = 0x33
type_code error = 0x7F

-- The type with this code: `none` is a code for which is_known_message_type answers false.
unfoldable pub known_message_type : ℕ → Option MessageType
known_message_type value =
    if value == 0x01
    then some ping
    else if value == 0x02
    then some pong
    else if value == 0x10
    then some auth_challenge
    else if value == 0x11
    then some auth_proof
    else if value == 0x12
    then some auth_result
    else if value == 0x20
    then some upload_request
    else if value == 0x21
    then some download_request
    else if value == 0x22
    then some transfer_ready
    else if value == 0x23
    then some file_chunk
    else if value == 0x24
    then some acknowledgment
    else if value == 0x25
    then some transfer_complete
    else if value == 0x26
    then some transfer_result
    else if value == 0x30
    then some sync_manifest
    else if value == 0x31
    then some sync_plan
    else if value == 0x32
    then some sync_complete
    else if value == 0x33
    then some sync_result
    else if value == 0x7F
    then some error
    else none

-- operator== on message types.
unfoldable pub type_eq : MessageType → MessageType → Bool
unfolding type_code
type_eq a b = type_code a == type_code b

pub known_message_type-type_code : (t : MessageType) → known_message_type (type_code t) ≡ some t
unfolding known_message_type type_code
known_message_type-type_code ping = refl
known_message_type-type_code t = refl

pub type_code-of_known : (v : ℕ) (t : MessageType) → known_message_type v ≡ some t → type_code t ≡ v
unfolding known_message_type type_code
type_code-of_known v t h = ground arith

pub type_eq→eq : (a b : MessageType) → type_eq a b ≡ true → a ≡ b
unfolding type_eq
type_eq→eq a b h = ground (
  arith,
  known_message_type-type_code a,
  known_message_type-type_code b,
  ap known_message_type ((==_iff (type_code a) (type_code b)).0 h),
)

pub type_eq_self : (a : MessageType) → type_eq a a ≡ true
unfolding type_eq
type_eq_self a = ==_self (type_code a)

pub record FrameHeader : Type 0 where
  pub magic : ℕ
  pub version : ℕ
  pub message_type : MessageType
  pub header_size : ℕ
  pub payload_length : ℕ
  pub flags : ℕ
  pub request_id : ℕ
  pub transfer_id : ℕ

-- The default member values, with the fields that the callers give.
abbrev pub new_header : MessageType → ℕ → ℕ → ℕ → FrameHeader
new_header type length request transfer = record {
  magic = magic_number;
  version = protocol_version;
  message_type = type;
  header_size = wire_header_size;
  payload_length = length;
  flags = 0;
  request_id = request;
  transfer_id = transfer;
}

pub record Frame : Type 0 where
  pub header : FrameHeader
  pub payload : List ℕ

pub data CodecError : Type 0 where
  header_too_short invalid_magic unsupported_version invalid_header_size : CodecError
  unknown_message_type unsupported_flags payload_too_large : CodecError
  input_buffer_limit_exceeded : CodecError
