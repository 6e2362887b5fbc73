-- ===== src/TransferCodec.antt =====
-- src/common/transfer_codec.cpp: the payloads of the file transfer messages.
pub mod RoundTrip
use syncwire.Common.{
  ℕ, zero, suc, ◌+◌, ◌-◌, ◌*◌, ◌%◌, ◌^◌, ◌≤◌, ◌<◌, ◌≡◌, Bool, true, false, not, List, [], ◌∷◌, ◌++◌,
  Option, none, some, ltb, ◌==◌, if◌then◌else◌, length, take, drop, get_or, Outcome, ok, err, ◌>>=◌,
}
use syncwire.Wire.{get_u8, get_u16, get_u32, get_u64, append_u16, append_u32, append_u64}
use syncwire.Paths.{is_safe_remote_path, max_remote_path_length}

-- The sizes at the top of transfer_codec.hpp.
abbrev pub upload_metadata_prefix_size : ℕ
upload_metadata_prefix_size = 14

abbrev pub chunk_offset_size : ℕ
chunk_offset_size = 8

abbrev pub acknowledgment_payload_size : ℕ
acknowledgment_payload_size = 8

abbrev pub transfer_ready_payload_size : ℕ
transfer_ready_payload_size = 12

abbrev pub transfer_result_payload_size : ℕ
transfer_result_payload_size = 1

abbrev pub default_chunk_size : ℕ
default_chunk_size = 64 * 1024

abbrev pub default_max_file_size : ℕ
default_max_file_size = 1024 * 1024 * 1024

pub data TransferResultCode : Type 0 where
  success invalid_request invalid_path file_too_large file_io_error : TransferResultCode
  unexpected_frame unexpected_offset size_mismatch checksum_mismatch : TransferResultCode

pub data TransferCodecError : Type 0 where
  payload_too_short payload_size_mismatch empty_filename filename_too_long : TransferCodecError
  unsafe_filename chunk_has_no_data unknown_result_code : TransferCodecError

pub record UploadMetadata : Type 0 where
  pub filename : List ℕ
  pub file_size : ℕ
  pub checksum : ℕ

pub record FileChunk : Type 0 where
  pub offset : ℕ
  pub bytes : List ℕ

pub record TransferReady : Type 0 where
  pub offset : ℕ
  pub prefix_checksum : ℕ

-- static_cast<std::uint8_t>(code).
unfoldable pub result_code : TransferResultCode → ℕ
result_code success = 0
result_code invalid_request = 1
result_code invalid_path = 2
result_code file_too_large = 3
result_code file_io_error = 4
result_code unexpected_frame = 5
result_code unexpected_offset = 6
result_code size_mismatch = 7
result_code checksum_mismatch = 8

-- known_result_code, with the cast that follows it.
unfoldable pub known_result_code : ℕ → Option TransferResultCode
known_result_code raw =
    if raw == 0
    then some success
    else if raw == 1
    then some invalid_request
    else if raw == 2
    then some invalid_path
    else if raw == 3
    then some file_too_large
    else if raw == 4
    then some file_io_error
    else if raw == 5
    then some unexpected_frame
    else if raw == 6
    then some unexpected_offset
    else if raw == 7
    then some size_mismatch
    else if raw == 8
    then some checksum_mismatch
    else none

-- An unsafe name gives the empty payload.
unfoldable pub encode_upload_metadata : UploadMetadata → List ℕ
encode_upload_metadata metadata =
    if not (is_safe_remote_path metadata.filename)
    then []
    else append_u32
        (append_u64 (append_u16 [] (length metadata.filename % 2 ^ 16)) metadata.file_size)
        metadata.checksum
      ++ metadata.filename

unfoldable pub decode_upload_metadata : List ℕ → Outcome TransferCodecError UploadMetadata
decode_upload_metadata payload =
    let filename_length = get_u16 payload 0 in
    let filename = take filename_length (drop upload_metadata_prefix_size payload) in
    if ltb (length payload) upload_metadata_prefix_size
    then err payload_too_short
    else if filename_length == 0
    then err empty_filename
    else if ltb max_remote_path_length filename_length
    then err filename_too_long
    else if not (length payload == upload_metadata_prefix_size + filename_length)
    then err payload_size_mismatch
    else if not (is_safe_remote_path filename)
    then err unsafe_filename
    else ok (record {
      filename = filename;
      file_size = get_u64 payload 2;
      checksum = get_u32 payload 10;
    })

unfoldable pub encode_file_chunk : ℕ → List ℕ → List ℕ
encode_file_chunk offset bytes = append_u64 [] offset ++ bytes

unfoldable pub decode_file_chunk : List ℕ → Outcome TransferCodecError FileChunk
decode_file_chunk payload =
    if ltb (length payload) chunk_offset_size
    then err payload_too_short
    else if length payload == chunk_offset_size
    then err chunk_has_no_data
    else ok (record { offset = get_u64 payload 0; bytes = drop chunk_offset_size payload })

unfoldable pub encode_offset : ℕ → List ℕ
encode_offset offset = append_u64 [] offset

unfoldable pub decode_offset : List ℕ → Outcome TransferCodecError ℕ
decode_offset payload =
    if not (length payload == acknowledgment_payload_size)
    then err payload_size_mismatch
    else ok (get_u64 payload 0)

unfoldable pub encode_transfer_ready : TransferReady → List ℕ
unfolding encode_offset
encode_transfer_ready ready = append_u32 (encode_offset ready.offset) ready.prefix_checksum

unfoldable pub decode_transfer_ready : List ℕ → Outcome TransferCodecError TransferReady
decode_transfer_ready payload =
    if not (length payload == transfer_ready_payload_size)
    then err payload_size_mismatch
    else ok (record { offset = get_u64 payload 0; prefix_checksum = get_u32 payload 8 })

unfoldable pub encode_transfer_result : TransferResultCode → List ℕ
encode_transfer_result code = result_code code ∷ []

unfoldable pub decode_transfer_result : List ℕ → Outcome TransferCodecError TransferResultCode
decode_transfer_result payload =
    if not (length payload == transfer_result_payload_size)
    then err payload_size_mismatch
    else elim (known_result_code (get_u8 payload 0)) [
      | none ↦ err unknown_result_code
      | some code ↦ ok code
    ]
