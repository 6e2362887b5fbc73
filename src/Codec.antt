-- ===== src/Codec.antt =====
-- src/common/codec.cpp: the 32-byte frame header, written and read.
pub mod RoundTrip
use syncwire.Common.{
  ℕ, zero, suc, ◌+◌, ◌*◌, ◌/◌, ◌%◌, ◌^◌, ◌≤◌, ◌<◌, ◌≡◌, Bool, true, false, List, [], ◌∷◌, Option,
  none, some, not, ltb, ◌==◌, if◌then◌else◌, length, set, replicate, Outcome, ok, err,
}
use syncwire.Wire.{get_u8, get_u16, get_u32, get_u64}
use syncwire.Protocol.{
  magic_number, protocol_version, wire_header_size, FrameHeader, CodecError, header_too_short,
  invalid_magic, unsupported_version, invalid_header_size, unknown_message_type, unsupported_flags,
  payload_too_large, type_code, known_message_type,
}

put_u16 : List ℕ → ℕ → ℕ → List ℕ
put_u16 out offset value = set (set out offset (value / 2 ^ 8 % 256)) (offset + 1) (value % 256)

-- The loop of put_u32 and put_u64: `rounds` bytes are left, highest first, and so the shift is
-- `(rounds - 1) * 8`.
put_loop : ℕ → List ℕ → ℕ → ℕ → List ℕ
put_loop zero out offset value = out
put_loop (suc rounds) out offset value =
    put_loop rounds (set out offset (value / 2 ^ (rounds * 8) % 256)) (offset + 1) value

put_u32 : List ℕ → ℕ → ℕ → List ℕ
unfolding put_loop
put_u32 out offset value = put_loop 4 out offset value

put_u64 : List ℕ → ℕ → ℕ → List ℕ
unfolding put_loop
put_u64 out offset value = put_loop 8 out offset value

unfoldable pub encode_header : FrameHeader → List ℕ
unfolding put_u16 put_u32 put_u64
encode_header header =
    let b0 = put_u32 (replicate wire_header_size 0) 0 header.magic in
    let b1 = set b0 4 (header.version % 256) in
    let b2 = set b1 5 (type_code header.message_type) in
    let b3 = put_u16 b2 6 header.header_size in
    let b4 = put_u32 b3 8 header.payload_length in
    let b5 = put_u32 b4 12 header.flags in
    let b6 = put_u64 b5 16 header.request_id in put_u64 b6 24 header.transfer_id

-- The checks behind that of the size, in the order of the source.
decode_fields : List ℕ → ℕ → Outcome CodecError FrameHeader
decode_fields bytes max_payload =
    let magic = get_u32 bytes 0 in
    let version = get_u8 bytes 4 in
    let header_size = get_u16 bytes 6 in
    let payload_length = get_u32 bytes 8 in
    let flags = get_u32 bytes 12 in
    if not (magic == magic_number)
    then err invalid_magic
    else if not (version == protocol_version)
    then err unsupported_version
    else elim (known_message_type (get_u8 bytes 5)) [
      | none ↦ err unknown_message_type
      | some type ↦
          if not (header_size == wire_header_size)
          then err invalid_header_size
          else if ltb max_payload payload_length
          then err payload_too_large
          else if not (flags == 0)
          then err unsupported_flags
          else ok (record {
            magic = magic;
            version = version;
            message_type = type;
            header_size = header_size;
            payload_length = payload_length;
            flags = flags;
            request_id = get_u64 bytes 16;
            transfer_id = get_u64 bytes 24;
          })
    ]

unfoldable pub decode_header : List ℕ → ℕ → Outcome CodecError FrameHeader
unfolding decode_fields
decode_header bytes max_payload =
    if ltb (length bytes) wire_header_size
    then err header_too_short
    else decode_fields bytes max_payload

-- The header that every sender of the program builds: only the lengths and the ids vary.
pub record IsHeader (max_payload : ℕ) (h : FrameHeader) : Type 0 where
  pub magic_ok : h.magic ≡ magic_number
  pub version_ok : h.version ≡ protocol_version
  pub size_ok : h.header_size ≡ wire_header_size
  pub length_ok : h.payload_length ≤ max_payload
  pub length_fits : h.payload_length < 2 ^ 32
  pub flags_ok : h.flags ≡ 0
  pub request_fits : h.request_id < 2 ^ 64
  pub transfer_fits : h.transfer_id < 2 ^ 64
