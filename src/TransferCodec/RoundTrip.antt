-- ===== src/TransferCodec/RoundTrip.antt =====
-- The payloads of src/common/transfer_codec.cpp, written and read back.
use syncwire.Common.{
  ℕ, ◌%◌, ◌^◌, ◌≤◌, ◌<◌, ◌≡◌, refl, ap, ◌∙◌, true, List, [], ◌++◌, length, take, arith, ok,
  take_all,
}
use syncwire.Wire.{
  IsU32, IsU64, get_u8, get_u16, get_u32, get_u64, append_u16, append_u32, append_u64,
}
use syncwire.Wire.Laws.{
  get_u16-append_u16, get_u32-append_u32, get_u64-append_u64, get_u32-append_right,
  get_u64-append_right,
}
use syncwire.Paths.{is_safe_remote_path}
use syncwire.Paths.Components.{is_safe-length}
use syncwire.TransferCodec.{
  UploadMetadata, TransferReady, TransferResultCode, success, encode_upload_metadata,
  decode_upload_metadata, encode_file_chunk, decode_file_chunk, encode_offset, decode_offset,
  encode_transfer_ready, decode_transfer_ready, encode_transfer_result, decode_transfer_result,
  result_code, known_result_code,
}

-- The metadata of an upload with a safe name, a 64-bit size and a 32-bit checksum are read back.
pub decode-encode_upload_metadata :
    (m : UploadMetadata)
    → is_safe_remote_path m.filename ≡ true
    → IsU64 m.file_size
    → IsU32 m.checksum
    → decode_upload_metadata (encode_upload_metadata m) ≡ ok m
unfolding encode_upload_metadata decode_upload_metadata append_u16 append_u32 append_u64
decode-encode_upload_metadata m safe size sum =
    rw (safe, name_length) (rw (file_size, checksum, name, safe) (ground (arith, bounds)))
  where
    open m use {filename}

    bounds : (0 < length filename) × (length filename ≤ 1024)
    bounds = is_safe-length filename safe

    behind : List ℕ
    behind = append_u64 [] m.file_size ++ (append_u32 [] m.checksum ++ filename)

    whole : List ℕ
    whole = append_u16 [] (length filename % 2 ^ 16) ++ behind

    name_length : get_u16 whole 0 ≡ length filename
    name_length =
        get_u16-append_u16 behind (length filename % 2 ^ 16) (omega arith) ∙ omega (arith, bounds)

    file_size : get_u64 whole 2 ≡ m.file_size
    file_size =
        get_u64-append_right (append_u16 [] (length filename % 2 ^ 16)) behind 2 0 refl
        ∙ get_u64-append_u64 (append_u32 [] m.checksum ++ filename) m.file_size size

    checksum : get_u32 whole 10 ≡ m.checksum
    checksum =
        get_u32-append_right (append_u16 [] (length filename % 2 ^ 16) ++ append_u64 [] m.file_size)
          (append_u32 [] m.checksum ++ filename) 10 0 refl
        ∙ get_u32-append_u32 filename m.checksum sum

    name : take (length filename) filename ≡ filename
    name = take_all (length filename) filename (omega arith)

-- A chunk with a 64-bit offset and at least one byte is read back.
pub decode-encode_file_chunk :
    (offset : ℕ) (bytes : List ℕ)
    → IsU64 offset
    → 0 < length bytes
    → decode_file_chunk (encode_file_chunk offset bytes)
      ≡ ok (record { offset = offset; bytes = bytes })
unfolding encode_file_chunk decode_file_chunk append_u64
decode-encode_file_chunk offset bytes h more = rw (get_u64-append_u64 bytes offset h) (ground arith)

-- An offset of 64 bits is read back.
pub decode-encode_offset :
    (offset : ℕ) → IsU64 offset → decode_offset (encode_offset offset) ≡ ok offset
unfolding encode_offset decode_offset append_u64
decode-encode_offset offset h = ap ok (get_u64-append_u64 [] offset h)

-- A resume offset of 64 bits and a prefix checksum of 32 bits are read back.
pub decode-encode_transfer_ready :
    (r : TransferReady)
    → IsU64 r.offset
    → IsU32 r.prefix_checksum
    → decode_transfer_ready (encode_transfer_ready r) ≡ ok r
unfolding encode_transfer_ready decode_transfer_ready append_u64 append_u32
decode-encode_transfer_ready r h k =
    rw
      (
        get_u64-append_u64 (append_u32 [] r.prefix_checksum) r.offset h,
        get_u32-append_right (append_u64 [] r.offset) (append_u32 [] r.prefix_checksum) 8 0 refl,
        get_u32-append_u32 [] r.prefix_checksum k,
      )
      refl

-- Every transfer result is read back.
pub decode-encode_transfer_result :
    (c : TransferResultCode) → decode_transfer_result (encode_transfer_result c) ≡ ok c
unfolding encode_transfer_result decode_transfer_result result_code known_result_code get_u8
decode-encode_transfer_result success = refl
decode-encode_transfer_result c = refl
