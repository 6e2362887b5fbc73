-- ===== src/Codec/RoundTrip.antt =====
-- encode_header and decode_header of src/common/codec.cpp against each other.
use syncwire.Common.{
  ℕ, ◌%◌, ◌≤◌, ◌≡◌, refl, List, [], ◌∷◌, ◌++◌, length, take, drop, All, length-append, sym, ◌∙◌,
  arith, ok,
}
use syncwire.Wire.{IsByte, get_u8, get_u16, get_u32, get_u64, append_u16, append_u32, append_u64}
use syncwire.Wire.Laws.{
  get_u16-append_u16, get_u32-append_u32, get_u64-append_u64, get_u16-append_right,
  get_u32-append_right, get_u64-append_right, get_u8-lt, get_u32-lt, get_u64-lt, append_u16-get_u16,
  append_u32-get_u32, append_u64-get_u64, take-read_run,
}
use native.Mathlib.Nat.{mod-eq_of_lt}
use syncwire.Protocol.{FrameHeader, type_code, known_message_type-type_code, type_code-of_known}
use syncwire.Codec.{encode_header, decode_header, IsHeader}

-- The array as a run of appended fields.
abbrev fields : FrameHeader → List ℕ
fields h =
    append_u32 [] h.magic
    ++ ((h.version % 256)
        ∷ type_code h.message_type
        ∷ (append_u16 [] h.header_size
            ++ (append_u32 [] h.payload_length
                ++ (append_u32 [] h.flags
                    ++ (append_u64 [] h.request_id ++ append_u64 [] h.transfer_id)))))

encode_header-fields : (h : FrameHeader) → encode_header h ≡ fields h
unfolding encode_header append_u16 append_u32 append_u64
encode_header-fields h = refl

pub length-encode_header : (h : FrameHeader) → length (encode_header h) ≡ 32
unfolding encode_header
length-encode_header h = refl

-- The fields, read back one by one.
module _ (h : FrameHeader) (rest : List ℕ) (m : ℕ) (good : IsHeader m h) where
  open good use {magic_ok, version_ok, size_ok, length_ok, length_fits, flags_ok, request_fits}
  open good use {transfer_fits}

  read_magic : get_u32 (encode_header h ++ rest) 0 ≡ h.magic
  unfolding encode_header append_u32
  read_magic = get_u32-append_u32 (drop 4 (encode_header h) ++ rest) h.magic (omega arith)

  read_version : get_u8 (encode_header h ++ rest) 4 ≡ h.version
  unfolding encode_header get_u8
  read_version = omega arith

  read_type : get_u8 (encode_header h ++ rest) 5 ≡ type_code h.message_type
  unfolding encode_header get_u8
  read_type = refl

  read_size : get_u16 (encode_header h ++ rest) 6 ≡ h.header_size
  unfolding encode_header append_u16
  read_size =
      get_u16-append_right (take 6 (encode_header h))
        (append_u16 [] h.header_size ++ (drop 8 (encode_header h) ++ rest)) 6 0 refl
      ∙ get_u16-append_u16 _ h.header_size (omega arith)

  read_length : get_u32 (encode_header h ++ rest) 8 ≡ h.payload_length
  unfolding encode_header append_u32
  read_length =
      get_u32-append_right (take 8 (encode_header h))
        (append_u32 [] h.payload_length ++ (drop 12 (encode_header h) ++ rest)) 8 0 refl
      ∙ get_u32-append_u32 _ h.payload_length length_fits

  read_flags : get_u32 (encode_header h ++ rest) 12 ≡ h.flags
  unfolding encode_header append_u32
  read_flags =
      get_u32-append_right (take 12 (encode_header h))
        (append_u32 [] h.flags ++ (drop 16 (encode_header h) ++ rest)) 12 0 refl
      ∙ get_u32-append_u32 _ h.flags (omega arith)

  read_request : get_u64 (encode_header h ++ rest) 16 ≡ h.request_id
  unfolding encode_header append_u64
  read_request =
      get_u64-append_right (take 16 (encode_header h))
        (append_u64 [] h.request_id ++ (drop 24 (encode_header h) ++ rest)) 16 0 refl
      ∙ get_u64-append_u64 _ h.request_id request_fits

  read_transfer : get_u64 (encode_header h ++ rest) 24 ≡ h.transfer_id
  unfolding encode_header append_u64
  read_transfer =
      get_u64-append_right (take 24 (encode_header h)) (append_u64 [] h.transfer_id ++ rest) 24 0
        refl
      ∙ get_u64-append_u64 _ h.transfer_id transfer_fits

  -- A header whose fields fit the wire, with the program's magic number, version and size, no
  -- flags and a payload within the limit, is decoded from its encoding, whatever follows it.
  pub decode_header-encode_header : decode_header (encode_header h ++ rest) m ≡ ok h
  unfolding decode_header
  decode_header-encode_header =
      rw (read_type, known_message_type-type_code h.message_type)
        (rw
          (
            read_magic,
            read_version,
            read_size,
            read_length,
            read_flags,
            read_request,
            read_transfer,
            length-append (encode_header h) rest,
            length-encode_header h,
          )
          (ground arith))

-- For bytes below 256: a header that decodes has the program's magic number, version and size, no
-- flags, a payload within the limit, and fields that fit the wire.
pub decode_header-IsHeader :
    (bytes : List ℕ) (m : ℕ) (h : FrameHeader)
    → All IsByte bytes
    → decode_header bytes m ≡ ok h
    → IsHeader m h
unfolding decode_header
decode_header-IsHeader bytes m h b e =
    ground (arith, get_u32-lt bytes 8 b, get_u64-lt bytes 16 b, get_u64-lt bytes 24 b)

-- Where each field of a decoded header was read.
decoded_fields :
    (bytes : List ℕ) (m : ℕ) (h : FrameHeader)
    → decode_header bytes m ≡ ok h
    → (h.magic ≡ get_u32 bytes 0)
      × (h.version ≡ get_u8 bytes 4)
      × (type_code h.message_type ≡ get_u8 bytes 5)
      × (h.header_size ≡ get_u16 bytes 6)
      × (h.payload_length ≡ get_u32 bytes 8)
      × (h.flags ≡ get_u32 bytes 12)
      × (h.request_id ≡ get_u64 bytes 16)
      × (h.transfer_id ≡ get_u64 bytes 24)
      × (32 ≤ length bytes)
unfolding decode_header
decoded_fields bytes m h e = ground (arith, type_code-of_known (get_u8 bytes 5) h.message_type)

-- For bytes below 256: a header that decodes is written back to the 32 bytes that it was read
-- from.
pub encode_header-decode_header :
    (bytes : List ℕ) (m : ℕ) (h : FrameHeader)
    → All IsByte bytes
    → decode_header bytes m ≡ ok h
    → encode_header h ≡ take 32 bytes
encode_header-decode_header bytes m h b e =
    let (magic, version, type, size, length, flags, request, transfer, long) =
      decoded_fields bytes m h e in
    encode_header-fields h
    ∙ rw
        (
          magic,
          version,
          type,
          size,
          length,
          flags,
          request,
          transfer,
          append_u32-get_u32 bytes 0 b,
          append_u32-get_u32 bytes 8 b,
          append_u32-get_u32 bytes 12 b,
          append_u16-get_u16 bytes 6 b,
          append_u64-get_u64 bytes 16 b,
          append_u64-get_u64 bytes 24 b,
          mod-eq_of_lt (get_u8-lt bytes 4 b),
        )
        (sym (take-read_run 32 [] bytes 0 refl long))

-- The limit on the payload holds for any header that decodes.
pub decode_header-le :
    (bytes : List ℕ) (m : ℕ) (h : FrameHeader) → decode_header bytes m ≡ ok h → h.payload_length ≤ m
unfolding decode_header
decode_header-le bytes m h e = ground arith
