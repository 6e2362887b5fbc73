-- ===== src/Parser/Failure.antt =====
-- FrameParser::consume (src/common/frame_parser.cpp): what a call can end in, and what becomes of the
-- calls after it.
use syncwire.Common.{
  ℕ, ◌+◌, ◌≤◌, ◌<◌, ◌≡◌, ◌≢◌, ◌⊎◌, refl, ◌∙◌, List, [], ◌∷◌, Option, none, some, length, arith, err,
  Outcome-cases, Option-cases, Bool-cases, inl, inr, ltb, take,
}
use syncwire.Protocol.{Frame, CodecError, input_buffer_limit_exceeded}
use syncwire.Codec.{decode_header}
use syncwire.Parser.{FrameParser, ParseBatch, malformed, next_frame, consume, unread}
use syncwire.Parser.Stream.{Parses, stop, bad, more}
use syncwire.Parser.Refines.{IsParser, Consumed, consume-Consumed, consume_failed, consume_overflow}

decode_header-ne-overflow :
    (bytes : List ℕ) (max_payload : ℕ)
    → decode_header bytes max_payload ≢ err input_buffer_limit_exceeded
unfolding decode_header
decode_header-ne-overflow bytes max_payload h = ground (arith, h)

next_frame-ne-overflow :
    (m : ℕ) (bytes : List ℕ) → next_frame m bytes ≢ malformed input_buffer_limit_exceeded
unfolding next_frame
next_frame-ne-overflow m bytes h = elim (Bool-cases (ltb (length bytes) 32)) [
  | inl short ↦ cc (rw (next_frame, short) at h)
  | inr long ↦ elim (Outcome-cases (decode_header (take 32 bytes) m)) [
    | inr (e, d) ↦
        ground
          (arith, rw (next_frame, long, d) at h, d, decode_header-ne-overflow (take 32 bytes) m)
    | inl (header, d) ↦ ground (arith, rw (next_frame, long, d) at h)
  ]
]

Parses-ne-overflow :
    {m : ℕ} {bytes tail : List ℕ} {fs : List Frame} {e : Option CodecError}
    → Parses m bytes fs tail e
    → e ≢ some input_buffer_limit_exceeded
Parses-ne-overflow (stop p) h = cc h
Parses-ne-overflow {m} {bytes} (bad {e = x} p) h =
    ground (arith, p, h, next_frame-ne-overflow m bytes)
Parses-ne-overflow (more p c r) h = Parses-ne-overflow r h

-- Each of the calls is answered with the error and no frame.
abbrev pub IsRefused : FrameParser → CodecError → List (List ℕ) → Type 0
IsRefused p e [] = Unit {0}
IsRefused p e (c ∷ cs) =
    ((consume p c).1 ≡ record { frames = []; error = some e }) × IsRefused (consume p c).0 e cs

failed-IsRefused :
    (p : FrameParser) (e : CodecError) (cs : List (List ℕ))
    → p.terminal_error ≡ some e
    → IsRefused p e cs
failed-IsRefused p e [] h = tt
failed-IsRefused p e (c ∷ cs) h = rw (consume_failed p c e h) (refl, failed-IsRefused p e cs h)

-- The three ends of a call, for the bytes that wait and those that come.
abbrev pub Overflowed : FrameParser → List ℕ → FrameParser → ParseBatch → Type 0
Overflowed p bytes q b =
    (p.max_buffer < length (unread p) + length bytes)
    × (b ≡ record { frames = []; error = some input_buffer_limit_exceeded })
    × (unread q ≡ unread p)

abbrev pub Went : FrameParser → List ℕ → FrameParser → ParseBatch → Type 0
Went p bytes q b =
    (length (unread p) + length bytes ≤ p.max_buffer) × (b.error ≡ none) × Consumed p bytes q b

abbrev pub Broke : FrameParser → List ℕ → CodecError → FrameParser → ParseBatch → Type 0
Broke p bytes e q b =
    (length (unread p) + length bytes ≤ p.max_buffer)
    × (e ≢ input_buffer_limit_exceeded)
    × (b.error ≡ some e)
    × Consumed p bytes q b

-- A call of consume, on a parser between two calls that has not failed, ends in one of three ways.
-- Without room for the bytes that wait and the new ones: no frame, the error of the buffer's limit, and
-- the same bytes wait. With room, no error, and the frames and the bytes left of the stream. With
-- room, an error of the stream, which is never that of the limit, and the frames before it. After
-- either error every later call is answered with that error and no frame.
pub consume_ends :
    (p : FrameParser) (bytes : List ℕ) (later : List (List ℕ))
    → IsParser p
    → (Overflowed p bytes (consume p bytes).0 (consume p bytes).1
        × IsRefused (consume p bytes).0 input_buffer_limit_exceeded later)
      ⊎ Went p bytes (consume p bytes).0 (consume p bytes).1
      ⊎ ((e : CodecError) × Broke p bytes e (consume p bytes).0 (consume p bytes).1
          × IsRefused (consume p bytes).0 e later)
consume_ends p bytes later v =
    elim (Bool-cases (ltb p.max_buffer (length (unread p) + length bytes))) [
      | inl over ↦
          let (batch, waits, failed) = consume_overflow p bytes v (ground (arith, over)) in
          inl ((ground (arith, over), batch, waits), failed-IsRefused _ _ later failed)
      | inr room ↦
          let fits : length (unread p) + length bytes ≤ p.max_buffer = ground (arith, room) in
          let did = consume-Consumed p bytes v fits in
          elim (Option-cases (consume p bytes).1.error) [
            | inl fine ↦ inr (inl (fits, fine, did))
            | inr (e, broken) ↦ inr (
                inr (
                  e,
                  (fits, λ limit. Parses-ne-overflow did.parses (cc (broken, limit)), broken, did),
                  failed-IsRefused _ e later (did.same_error ∙ broken),
                ))
          ]
    ]
