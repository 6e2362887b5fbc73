-- ===== src/Tests/Streams.antt =====
-- Two frames of src/common/frame_parser.cpp cut into reads in two ways, and the header of one.
use syncwire.Common.{ℕ, ◌≡◌, ◌⊎◌, refl, List, [], ◌∷◌, ◌++◌, none, some, arith, ok, All}
use syncwire.Wire.{IsByte, get_u16, get_u32, get_u64}
use syncwire.Protocol.{
  ping, file_chunk, new_header, Frame, FrameHeader, input_buffer_limit_exceeded, type_code,
  known_message_type, CodecError,
}
use syncwire.Codec.{encode_header, decode_header, IsHeader}
use syncwire.Codec.RoundTrip.{
  decode_header-encode_header, encode_header-decode_header, decode_header-IsHeader,
}
use syncwire.Parser.{FrameParser, new_parser, consume}
use syncwire.Parser.Stream.{wire_all}
use syncwire.Parser.Refines.{IsParser, Consumed, consume-Consumed}
use syncwire.Parser.Failure.{Overflowed, Went, Broke, IsRefused, consume_ends}
use syncwire.Parser.Chunks.{feed, joined, feed_chunking, feed-wire_all}

abbrev first_header : FrameHeader
first_header = new_header ping 0 7 0

abbrev second_header : FrameHeader
second_header = new_header file_chunk 3 0 258

abbrev two_frames : List Frame
two_frames =
    record { header = first_header; payload = [] }
    ∷ record { header = second_header; payload = 1 ∷ 2 ∷ 3 ∷ [] }
    ∷ []

abbrev three_reads : List (List ℕ)
three_reads =
    (83 ∷ 87 ∷ 73 ∷ 82 ∷ 2 ∷ 1 ∷ 0 ∷ 32 ∷ 0 ∷ 0 ∷ 0 ∷ 0 ∷ 0 ∷ 0 ∷ 0 ∷ 0 ∷ 0 ∷ 0 ∷ 0 ∷ 0 ∷ [])
    ∷ (0 ∷ 0 ∷ 0 ∷ 7 ∷ 0 ∷ 0 ∷ 0 ∷ 0 ∷ 0 ∷ 0 ∷ 0 ∷ 0 ∷ 83 ∷ 87 ∷ 73 ∷ 82 ∷ 2 ∷ 35 ∷ 0 ∷ 32 ∷ [])
    ∷ (0 ∷ 0 ∷ 0 ∷ 3 ∷ 0 ∷ 0 ∷ 0 ∷ 0 ∷ 0 ∷ 0 ∷ 0 ∷ 0 ∷ 0 ∷ 0 ∷ 0 ∷ 0 ∷ 0 ∷ 0 ∷ 0 ∷ 0 ∷ 0 ∷ 0 ∷ 1 ∷ 2
        ∷ 1 ∷ 2 ∷ 3 ∷ [])
    ∷ []

abbrev two_reads : List (List ℕ)
two_reads =
    (83 ∷ 87 ∷ 73 ∷ 82 ∷ 2 ∷ 1 ∷ 0 ∷ 32 ∷ 0 ∷ 0 ∷ 0 ∷ 0 ∷ 0 ∷ 0 ∷ 0 ∷ 0 ∷ 0 ∷ 0 ∷ 0 ∷ 0 ∷ 0 ∷ 0 ∷ 0
      ∷ 7 ∷ 0 ∷ 0 ∷ 0 ∷ 0 ∷ 0 ∷ 0 ∷ 0 ∷ 0 ∷ 83 ∷ 87 ∷ 73 ∷ 82 ∷ 2 ∷ 35 ∷ 0 ∷ 32 ∷ 0 ∷ 0 ∷ 0 ∷ 3 ∷ 0
      ∷ 0 ∷ 0 ∷ 0 ∷ 0 ∷ 0 ∷ 0 ∷ 0 ∷ 0 ∷ 0 ∷ 0 ∷ 0 ∷ 0 ∷ 0 ∷ 0 ∷ 0 ∷ 0 ∷ 0 ∷ 1 ∷ 2 ∷ 1 ∷ 2 ∷ [])
    ∷ (3 ∷ [])
    ∷ []

abbrev small_parser : FrameParser
small_parser = record {
  max_payload = 8;
  max_buffer = 128;
  buffer = [];
  read_offset = 0;
  terminal_error = none;
}

small_parser_made : new_parser 8 128 ≡ some small_parser
unfolding new_parser
small_parser_made = refl

reads_joined : joined three_reads ≡ wire_all two_frames
unfolding encode_header type_code
reads_joined = refl

first-IsHeader : IsHeader 8 first_header
first-IsHeader = record {
  magic_ok = refl;
  version_ok = refl;
  size_ok = refl;
  length_ok = omega arith;
  length_fits = omega arith;
  flags_ok = refl;
  request_fits = omega arith;
  transfer_fits = omega arith;
}

second-IsHeader : IsHeader 8 second_header
second-IsHeader = record {
  magic_ok = refl;
  version_ok = refl;
  size_ok = refl;
  length_ok = omega arith;
  length_fits = omega arith;
  flags_ok = refl;
  request_fits = omega arith;
  transfer_fits = omega arith;
}

feed-wire_all_example :
    ((feed small_parser three_reads).1 ≡ two_frames)
    × ((feed small_parser three_reads).0.terminal_error ≡ none)
feed-wire_all_example =
    feed-wire_all 8 128 small_parser three_reads two_frames small_parser_made
      (omega arith, (omega arith, (omega arith, tt))) reads_joined
      ((first-IsHeader, refl), ((second-IsHeader, refl), tt))

feed_chunking_example :
    ((feed small_parser three_reads).1 ≡ (feed small_parser two_reads).1)
    × ((feed small_parser three_reads).0.terminal_error
        ≡ (feed small_parser two_reads).0.terminal_error)
feed_chunking_example =
    feed_chunking 8 128 small_parser three_reads two_reads small_parser_made
      (omega arith, (omega arith, (omega arith, tt))) (omega arith, (omega arith, tt)) refl

small_parser-IsParser : IsParser small_parser
small_parser-IsParser = record {
  within = omega arith;
  going = refl;
  short = omega arith;
  held = omega arith;
}

consume-Consumed_example :
    Consumed small_parser
      (joined three_reads)
      (consume small_parser (joined three_reads)).0
      (consume small_parser (joined three_reads)).1
consume-Consumed_example =
    consume-Consumed small_parser (joined three_reads) small_parser-IsParser (omega arith)

abbrev too_many : List ℕ
too_many = joined three_reads ++ joined three_reads

consume_ends_example :
    (Overflowed small_parser too_many
        (consume small_parser too_many).0
        (consume small_parser too_many).1
      × IsRefused (consume small_parser too_many).0 input_buffer_limit_exceeded two_reads)
    ⊎ Went small_parser too_many (consume small_parser too_many).0 (consume small_parser too_many).1
    ⊎ ((e : CodecError) × Broke small_parser too_many e
          (consume small_parser too_many).0
          (consume small_parser too_many).1
        × IsRefused (consume small_parser too_many).0 e two_reads)
consume_ends_example = consume_ends small_parser too_many two_reads small_parser-IsParser

abbrev header_bytes : List ℕ
header_bytes =
    83 ∷ 87 ∷ 73 ∷ 82 ∷ 2 ∷ 35 ∷ 0 ∷ 32 ∷ 0 ∷ 0 ∷ 0 ∷ 3 ∷ 0 ∷ 0 ∷ 0 ∷ 0 ∷ 0 ∷ 0 ∷ 0 ∷ 0 ∷ 0 ∷ 0 ∷ 0
    ∷ 0 ∷ 0 ∷ 0 ∷ 0 ∷ 0 ∷ 0 ∷ 0 ∷ 1 ∷ 2 ∷ []

header_bytes-IsByte : All IsByte header_bytes
header_bytes-IsByte = (
  omega arith,
  (
    omega arith,
    (
      omega arith,
      (
        omega arith,
        (
          omega arith,
          (
            omega arith,
            (
              omega arith,
              (
                omega arith,
                (
                  omega arith,
                  (
                    omega arith,
                    (
                      omega arith,
                      (
                        omega arith,
                        (
                          omega arith,
                          (
                            omega arith,
                            (
                              omega arith,
                              (
                                omega arith,
                                (
                                  omega arith,
                                  (
                                    omega arith,
                                    (
                                      omega arith,
                                      (
                                        omega arith,
                                        (
                                          omega arith,
                                          (
                                            omega arith,
                                            (
                                              omega arith,
                                              (
                                                omega arith,
                                                (
                                                  omega arith,
                                                  (
                                                    omega arith,
                                                    (
                                                      omega arith,
                                                      (
                                                        omega arith,
                                                        (
                                                          omega arith,
                                                          (
                                                            omega arith,
                                                            (omega arith, (omega arith, tt)),
                                                          ),
                                                        ),
                                                      ),
                                                    ),
                                                  ),
                                                ),
                                              ),
                                            ),
                                          ),
                                        ),
                                      ),
                                    ),
                                  ),
                                ),
                              ),
                            ),
                          ),
                        ),
                      ),
                    ),
                  ),
                ),
              ),
            ),
          ),
        ),
      ),
    ),
  ),
)

header_decodes : decode_header header_bytes 8 ≡ ok second_header
unfolding decode_header known_message_type get_u32 get_u16 get_u64
header_decodes = refl

decode_header-encode_header_example :
    decode_header (encode_header second_header ++ (9 ∷ [])) 8 ≡ ok second_header
decode_header-encode_header_example =
    decode_header-encode_header second_header (9 ∷ []) 8 second-IsHeader

decode_header-IsHeader_example : IsHeader 8 second_header
decode_header-IsHeader_example =
    decode_header-IsHeader header_bytes 8 second_header header_bytes-IsByte header_decodes

encode_header-decode_header_example : encode_header second_header ≡ header_bytes
encode_header-decode_header_example =
    encode_header-decode_header header_bytes 8 second_header header_bytes-IsByte header_decodes
