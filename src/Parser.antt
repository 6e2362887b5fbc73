-- ===== src/Parser.antt =====
-- src/common/frame_parser.cpp: the incremental parser that turns received bytes into frames.
pub mod Stream
pub mod Refines
pub mod Chunks
pub mod Failure
use syncwire.Common.{
  ℕ, zero, suc, ◌+◌, ◌-◌, ◌*◌, ◌/◌, ◌≤◌, ◌<◌, ◌≡◌, Bool, true, false, List, [], ◌∷◌, ◌++◌, Option,
  none, some, ltb, leb, ◌==◌, if◌then◌else◌, length, take, drop, Outcome, ok, err,
}
use syncwire.Protocol.{
  wire_header_size, default_max_payload, Frame, CodecError, input_buffer_limit_exceeded,
}
use syncwire.Codec.{decode_header}

pub record ParseBatch : Type 0 where
  pub frames : List Frame
  pub error : Option CodecError

pub record FrameParser : Type 0 where
  pub max_payload : ℕ
  pub max_buffer : ℕ
  pub buffer : List ℕ
  pub read_offset : ℕ
  pub terminal_error : Option CodecError

-- The constructor; `none` is the std::invalid_argument that it throws.
unfoldable pub new_parser : ℕ → ℕ → Option FrameParser
new_parser max_payload max_buffer =
    if ltb max_buffer wire_header_size
    then none
    else some (record {
      max_payload = max_payload;
      max_buffer = max_buffer;
      buffer = [];
      read_offset = 0;
      terminal_error = none;
    })

unfoldable pub buffered_bytes : FrameParser → ℕ
buffered_bytes p = length p.buffer - p.read_offset

unfoldable pub compact : FrameParser → FrameParser
compact p =
    if p.read_offset == 0
    then p
    else if p.read_offset == length p.buffer
    then record p { buffer = []; read_offset = 0 }
    else if leb (length p.buffer / 2) p.read_offset
    then record p { buffer = drop p.read_offset p.buffer; read_offset = 0 }
    else p

-- What one round of the loop of consume finds at the read offset.
pub data Round : Type 0 where
  incomplete : Round
  malformed : CodecError → Round
  complete : Frame → ℕ → Round

unfoldable pub next_frame : ℕ → List ℕ → Round
next_frame max_payload available =
    if ltb (length available) wire_header_size
    then incomplete
    else elim (decode_header (take wire_header_size available) max_payload) [
      | err e ↦ malformed e
      | ok header ↦
          let frame_size = wire_header_size + header.payload_length in
          if ltb (length available) frame_size
          then incomplete
          else complete
              (record {
                header = header;
                payload = take header.payload_length (drop wire_header_size available);
              })
              frame_size
    ]

-- The loop, with the offset that it leaves and the frames that it has completed. A round takes
-- at least a header, so the bytes of the buffer are rounds enough.
unfoldable pub parse_loop : ℕ → ℕ → List ℕ → ℕ → List Frame → ℕ × List Frame × Option CodecError
unfolding next_frame
parse_loop zero max_payload buffer offset completed = (offset, completed, none)
parse_loop (suc fuel) max_payload buffer offset completed =
    elim (next_frame max_payload (drop offset buffer)) [
      | incomplete ↦ (offset, completed, none)
      | malformed e ↦ (offset, completed, some e)
      | complete frame size ↦
          parse_loop fuel max_payload buffer (offset + size) (completed ++ (frame ∷ []))
    ]

unfoldable pub fail : FrameParser → CodecError → List Frame → FrameParser × ParseBatch
fail p e completed =
    (record p { terminal_error = some e }, record { frames = completed; error = some e })

-- What consume does with the outcome of its loop.
unfoldable pub finish : FrameParser → ℕ × List Frame × Option CodecError → FrameParser × ParseBatch
unfolding compact fail
finish p (offset, completed, none) =
    (compact (record p { read_offset = offset }), record { frames = completed; error = none })
finish p (offset, completed, some e) = fail (record p { read_offset = offset }) e completed

-- consume on a parser that has not failed, after its first compact.
unfoldable pub insert_and_parse : FrameParser → List ℕ → FrameParser × ParseBatch
unfolding parse_loop finish buffered_bytes
insert_and_parse p bytes =
    let buffer = p.buffer ++ bytes in
    let rounds = parse_loop (suc (length buffer)) p.max_payload buffer p.read_offset [] in
    if ltb (p.max_buffer - buffered_bytes p) (length bytes)
    then fail p input_buffer_limit_exceeded []
    else finish (record p { buffer = buffer }) rounds

unfoldable pub consume : FrameParser → List ℕ → FrameParser × ParseBatch
unfolding insert_and_parse compact
consume p bytes = elim p.terminal_error [
  | some e ↦ (p, record { frames = []; error = some e })
  | none ↦ insert_and_parse (compact p) bytes
]

-- The bytes that no frame has been made of yet.
abbrev pub unread : FrameParser → List ℕ
unread p = drop p.read_offset p.buffer
