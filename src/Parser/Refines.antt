-- ===== src/Parser/Refines.antt =====
-- The buffered parser of src/common/frame_parser.cpp against the relation of Parser/Stream, call by
-- call.
use syncwire.Common.{
  ℕ, zero, suc, ◌+◌, ◌-◌, ◌≤◌, ◌<◌, ◌≡◌, refl, sym, ap, ◌∙◌, List, [], ◌∷◌, ◌++◌, Option, none,
  some, length, length-append, drop, drop-drop, arith, inl, inr, ◌⊎◌, ltb, length-drop,
}
use mathlib.Core.Path.{subst₂, subst₃}
use mathlib.Core.Bool.{true, false}
use mathlib.Core.List.{append_assoc, append-nil}
use syncwire.Protocol.{Frame, CodecError, input_buffer_limit_exceeded}
use syncwire.Parser.{
  Round, incomplete, malformed, complete, next_frame, parse_loop, FrameParser, ParseBatch, compact,
  consume, unread, finish, fail, insert_and_parse, buffered_bytes,
}
use syncwire.Parser.Stream.{Parses, stop, bad, more, next_frame-size, drop-append_le}

Round-cases :
    (r : Round)
    → (r ≡ incomplete)
      ⊎ ((e : CodecError) × (r ≡ malformed e))
      ⊎ ((f : Frame) × (n : ℕ) × (r ≡ complete f n))
Round-cases incomplete = inl refl
Round-cases (malformed e) = inr (inl (e, refl))
Round-cases (complete f n) = inr (inr (f, n, refl))

-- What the loop leaves: the frames of the bytes behind the offset, and a new offset in range.
abbrev Ends : ℕ → List ℕ → ℕ → List Frame → ℕ × List Frame × Option CodecError → Type 0
Ends m buffer offset completed (end, done, e) =
    (fs : List Frame) × (done ≡ completed ++ fs)
    × Parses m (drop offset buffer) fs (drop end buffer) e
    × (end ≤ length buffer)

parse_loop-Ends :
    (fuel m : ℕ) (buffer : List ℕ) (offset : ℕ) (completed : List Frame)
    → offset ≤ length buffer
    → length buffer < fuel + offset
    → Ends m buffer offset completed (parse_loop fuel m buffer offset completed)
unfolding parse_loop
parse_loop-Ends zero m buffer offset completed within enough = absurd (omega arith)
parse_loop-Ends (suc fuel) m buffer offset completed within enough =
    elim (Round-cases (next_frame m (drop offset buffer))) [
      | inl p ↦ rw (p, parse_loop) ([], sym (append-nil completed), stop p, within)
      | inr (inl (e, p)) ↦ rw (p, parse_loop) ([], sym (append-nil completed), bad p, within)
      | inr (inr (f, n, p)) ↦
          let (least, most) = next_frame-size m (drop offset buffer) f n p in
          let (fs, done, parses, end) =
            parse_loop-Ends fuel m buffer (offset + n) (completed ++ (f ∷ []))
              (omega (arith, length-drop offset buffer)) (omega arith) in
          rw (p, parse_loop)
            (
              f ∷ fs,
              done ∙ append_assoc completed (f ∷ []) fs,
              more p (sym (drop-drop offset n buffer)) parses,
              end,
            )
    ]

-- The parser between two calls.
pub record IsParser (p : FrameParser) : Type 0 where
  pub within : p.read_offset ≤ length p.buffer
  pub going : p.terminal_error ≡ none
  pub short : length (unread p) < 32 + p.max_payload
  pub held : length (unread p) ≤ p.max_buffer

drop_all {ℓ} : {A : Type ℓ} (n : ℕ) (xs : List A) → n ≡ length xs → drop n xs ≡ []
drop_all zero [] h = refl
drop_all zero (x ∷ xs) h = absurd (omega arith)
drop_all (suc n) [] h = refl
drop_all (suc n) (x ∷ xs) h = drop_all n xs (omega arith)

-- compact throws away only what has been read.
pub unread-compact :
    (p : FrameParser)
    → (unread (compact p) ≡ unread p)
      × ((compact p).max_payload ≡ p.max_payload)
      × ((compact p).max_buffer ≡ p.max_buffer)
      × ((compact p).terminal_error ≡ p.terminal_error)
      × (p.read_offset ≤ length p.buffer → (compact p).read_offset ≤ length (compact p).buffer)
unfolding compact
unread-compact p = (
  ground (arith, drop_all p.read_offset p.buffer),
  ground arith,
  ground arith,
  ground arith,
  λ within. ground arith,
)

-- What one call of consume does with bytes that it has room for.
pub record Consumed (p : FrameParser) (bytes : List ℕ) (q : FrameParser) (b : ParseBatch)
    : Type 0 where
  pub parses : Parses p.max_payload (unread p ++ bytes) b.frames (unread q) b.error
  pub same_error : q.terminal_error ≡ b.error
  pub same_payload : q.max_payload ≡ p.max_payload
  pub same_buffer : q.max_buffer ≡ p.max_buffer
  pub in_range : q.read_offset ≤ length q.buffer

finish-Consumed :
    (p : FrameParser) (bytes : List ℕ) (r : ℕ × List Frame × Option CodecError)
    → p.read_offset ≤ length p.buffer
    → p.terminal_error ≡ none
    → Ends p.max_payload (p.buffer ++ bytes) p.read_offset [] r
    → let out = finish (record p { buffer = p.buffer ++ bytes }) r in Consumed p bytes out.0 out.1
unfolding finish fail
finish-Consumed p bytes (end, done, none) within going (fs, eq, parses, in_end) =
    let q : FrameParser = record p { buffer = p.buffer ++ bytes; read_offset = end } in
    let (left, payload, size, error, range) = unread-compact q in
    record {
      parses =
          subst₃ (λ (l : List ℕ) (gs : List Frame) (t : List ℕ). Parses p.max_payload l gs t none)
            (drop-append_le p.read_offset p.buffer bytes within) (sym eq) (sym left) parses;
      same_error = error ∙ going;
      same_payload = payload;
      same_buffer = size;
      in_range = range in_end;
    }
finish-Consumed p bytes (end, done, some e) within going (fs, eq, parses, in_end) = record {
  parses =
      subst₂
        (λ (l : List ℕ) (gs : List Frame).
          Parses p.max_payload l gs (drop end (p.buffer ++ bytes)) (some e))
        (drop-append_le p.read_offset p.buffer bytes within) (sym eq) parses;
  same_error = refl;
  same_payload = refl;
  same_buffer = refl;
  in_range = in_end;
}

insert_and_parse-Consumed :
    (p : FrameParser) (bytes : List ℕ)
    → p.read_offset ≤ length p.buffer
    → length (unread p) + length bytes ≤ p.max_buffer
    → p.terminal_error ≡ none
    → Consumed p bytes (insert_and_parse p bytes).0 (insert_and_parse p bytes).1
unfolding insert_and_parse
insert_and_parse-Consumed p bytes within room going = rw fits (
    finish-Consumed p bytes _ within going (
      parse_loop-Ends (suc (length (p.buffer ++ bytes))) p.max_payload (p.buffer ++ bytes)
        p.read_offset [] (omega (arith, length-append p.buffer bytes)) (omega arith)))
  where
    fits : ltb (p.max_buffer - buffered_bytes p) (length bytes) ≡ false
    fits = ground (arith, length-drop p.read_offset p.buffer)

consume_going :
    (p : FrameParser) (bytes : List ℕ)
    → p.terminal_error ≡ none
    → consume p bytes ≡ insert_and_parse (compact p) bytes
unfolding consume
consume_going p bytes going = elim_none p.terminal_error going
  where
    elim_none :
        (t : Option CodecError)
        → t ≡ none
        → (elim t as (λ x. FrameParser × ParseBatch) [
          | some e ↦ (p, record { frames = []; error = some e })
          | none ↦ insert_and_parse (compact p) bytes
        ])
          ≡ insert_and_parse (compact p) bytes
    elim_none none h = refl
    elim_none (some e) h = cc

-- On a parser between two calls that has not failed, a call with room for its bytes: the frames
-- that come out, the bytes that stay and the error are those of the stream that was waiting with
-- the new bytes behind it.
pub consume-Consumed :
    (p : FrameParser) (bytes : List ℕ)
    → IsParser p
    → length (unread p) + length bytes ≤ p.max_buffer
    → Consumed p bytes (consume p bytes).0 (consume p bytes).1
consume-Consumed p bytes v room =
    let (left, payload, size, error, range) = unread-compact p in
    let c =
      insert_and_parse-Consumed (compact p) bytes (range v.within) (rw (left, size) room)
        (error ∙ v.going) in
    rw (consume_going p bytes v.going) (record {
      parses =
          subst₂
            (λ (l : List ℕ) (m : ℕ).
              Parses m (l ++ bytes) (insert_and_parse (compact p) bytes).1.frames
                (unread (insert_and_parse (compact p) bytes).0)
                (insert_and_parse (compact p) bytes).1.error)
            left payload c.parses;
      same_error = c.same_error;
      same_payload = c.same_payload ∙ payload;
      same_buffer = c.same_buffer ∙ size;
      in_range = c.in_range;
    })

-- A failed parser answers every call with the error that it failed with, and no frame.
pub consume_failed :
    (p : FrameParser) (bytes : List ℕ) (e : CodecError)
    → p.terminal_error ≡ some e
    → consume p bytes ≡ (p, record { frames = []; error = some e })
unfolding consume
consume_failed p bytes e h = ground arith

-- On a parser between two calls that has not failed, a call without room for its bytes gives no frame
-- and leaves what was waiting and a parser that has failed.
pub consume_overflow :
    (p : FrameParser) (bytes : List ℕ)
    → IsParser p
    → p.max_buffer < length (unread p) + length bytes
    → ((consume p bytes).1 ≡ record { frames = []; error = some input_buffer_limit_exceeded })
      × (unread (consume p bytes).0 ≡ unread p)
      × ((consume p bytes).0.terminal_error ≡ some input_buffer_limit_exceeded)
unfolding insert_and_parse fail
consume_overflow p bytes v over =
    let (left, payload, size, error, range) = unread-compact p in
    let full : ltb ((compact p).max_buffer - buffered_bytes (compact p)) (length bytes) ≡ true =
      unfold buffered_bytes in
      ground (
        arith,
        size,
        ap length left,
        length-drop (compact p).read_offset (compact p).buffer,
        range v.within,
      ) in
    rw (consume_going p bytes v.going, insert_and_parse, full) (refl, left, refl)
