-- ===== src/Parser/Stream.antt =====
-- What the parser of src/common/frame_parser.cpp should find in a byte stream: a relation between a
-- stream, the frames at its front, and the bytes behind them, with no buffer and no chunks.
use syncwire.Common.{
  ℕ, zero, suc, ◌+◌, ◌≤◌, ◌<◌, ◌≡◌, refl, sym, ap, subst, ◌∙◌, List, [], ◌∷◌, ◌++◌, Option, none,
  some, length, length-append, take, drop, take-append, drop-append, arith, ok, ◌≢◌, inl, inr,
  Outcome-cases, length-drop, All,
}
use mathlib.Core.List.{append_assoc, append-nil}
use syncwire.Protocol.{Frame, FrameHeader, CodecError}
use syncwire.Codec.{encode_header, decode_header, IsHeader}
use mathlib.Core.Path.{ap₂}
use syncwire.Codec.RoundTrip.{length-encode_header, decode_header-encode_header, decode_header-le}
use syncwire.Parser.{incomplete, malformed, complete, next_frame}

pub data Parses (m : ℕ) : List ℕ → List Frame → List ℕ → Option CodecError → Type 0 where
  stop : {bytes : List ℕ} → next_frame m bytes ≡ incomplete → Parses m bytes [] bytes none
  bad :
      {bytes : List ℕ} {e : CodecError}
      → next_frame m bytes ≡ malformed e
      → Parses m bytes [] bytes (some e)
  more :
      {bytes rest tail : List ℕ} {f : Frame} {size : ℕ} {fs : List Frame} {e : Option CodecError}
      → next_frame m bytes ≡ complete f size
      → rest ≡ drop size bytes
      → Parses m rest fs tail e
      → Parses m bytes (f ∷ fs) tail e

-- A complete frame takes a header at least, and no more than what is there.
pub next_frame-size :
    (m : ℕ) (bytes : List ℕ) (f : Frame) (size : ℕ)
    → next_frame m bytes ≡ complete f size
    → (32 ≤ size) × (size ≤ length bytes)
unfolding next_frame
next_frame-size m bytes f size e = ground arith

-- Bytes behind a complete frame do not change it.
take-append_le : (n : ℕ) (xs ys : List ℕ) → n ≤ length xs → take n (xs ++ ys) ≡ take n xs
take-append_le zero xs ys h = refl
take-append_le (suc n) [] ys h = absurd (omega arith)
take-append_le (suc n) (x ∷ xs) ys h = ap (◌∷◌ x) (take-append_le n xs ys (omega arith))

pub drop-append_le : (n : ℕ) (xs ys : List ℕ) → n ≤ length xs → drop n (xs ++ ys) ≡ drop n xs ++ ys
drop-append_le zero xs ys h = refl
drop-append_le (suc n) [] ys h = absurd (omega arith)
drop-append_le (suc n) (x ∷ xs) ys h = drop-append_le n xs ys (omega arith)

-- The round when the header at the front decodes.
pub next_frame_decoded :
    (m : ℕ) (bytes : List ℕ) (h : FrameHeader)
    → decode_header (take 32 bytes) m ≡ ok h
    → 32 + h.payload_length ≤ length bytes
    → next_frame m bytes
      ≡ complete
          (record { header = h; payload = take h.payload_length (drop 32 bytes) })
          (32 + h.payload_length)
unfolding next_frame
next_frame_decoded m bytes h e room = ground arith

-- The header behind a complete frame.
pub next_frame_complete :
    (m : ℕ) (bytes : List ℕ) (f : Frame) (size : ℕ)
    → next_frame m bytes ≡ complete f size
    → (decode_header (take 32 bytes) m ≡ ok f.header)
      × (f.payload ≡ take f.header.payload_length (drop 32 bytes))
      × (size ≡ 32 + f.header.payload_length)
      × (size ≤ length bytes)
unfolding next_frame
next_frame_complete m bytes f size e = elim (Outcome-cases (decode_header (take 32 bytes) m)) [
  | inl (h, d) ↦ ground arith
  | inr (x, d) ↦ ground arith
]

pub next_frame-append :
    (m : ℕ) (bytes behind : List ℕ) (f : Frame) (size : ℕ)
    → next_frame m bytes ≡ complete f size
    → next_frame m (bytes ++ behind) ≡ complete f size
next_frame-append m bytes behind f size e =
    let (decoded, payload, sum, room) = next_frame_complete m bytes f size e in
    next_frame_decoded m (bytes ++ behind) f.header
      (rw (take-append_le 32 bytes behind (omega arith)) decoded)
      (omega (arith, length-append bytes behind))
    ∙ ap₂ complete
        (λ i. record {
          header = f.header;
          payload =
              (ap (take f.header.payload_length) (drop-append_le 32 bytes behind (omega arith))
                  ∙ take-append_le f.header.payload_length (drop 32 bytes) behind
                      (omega (arith, length-drop 32 bytes))
                  ∙ sym payload)
                i;
        })
        (sym sum)

-- While a round is incomplete, less than a header and a full payload is waiting.
pub next_frame_short :
    (m : ℕ) (bytes : List ℕ) → next_frame m bytes ≡ incomplete → length bytes < 32 + m
unfolding next_frame
next_frame_short m bytes e = elim (Outcome-cases (decode_header (take 32 bytes) m)) [
  | inl (h, d) ↦ ground (arith, decode_header-le (take 32 bytes) m h d)
  | inr (x, d) ↦ ground arith
]

pub Parses-short :
    {m : ℕ} {bytes tail : List ℕ} {fs : List Frame} {e : Option CodecError}
    → Parses m bytes fs tail e
    → e ≡ none
    → length tail < 32 + m
Parses-short {m} {bytes} (stop p) n = next_frame_short m bytes p
Parses-short (bad p) n = cc
Parses-short (more p c r) n = Parses-short r n

pub Parses-rest :
    {m : ℕ} {bytes tail : List ℕ} {fs : List Frame} {e : Option CodecError}
    → Parses m bytes fs tail e
    → e ≡ none
    → next_frame m tail ≡ incomplete
Parses-rest (stop p) n = p
Parses-rest (bad p) n = cc
Parses-rest (more p c r) n = Parses-rest r n

-- A stream determines its frames.
pub Parses-unique :
    {m : ℕ} {bytes tail tail' : List ℕ} {fs gs : List Frame} {e e' : Option CodecError}
    → Parses m bytes fs tail e
    → Parses m bytes gs tail' e'
    → (fs ≡ gs) × (tail ≡ tail') × (e ≡ e')
Parses-unique (stop p) (stop q) = (refl, refl, refl)
Parses-unique (stop p) (bad q) = cc
Parses-unique (stop p) (more q _ r) = cc
Parses-unique (bad p) (stop q) = cc
Parses-unique (bad p) (bad q) = (refl, refl, cc)
Parses-unique (bad p) (more q _ r) = cc
Parses-unique (more p c r) (stop q) = cc
Parses-unique (more p c r) (bad q) = cc
Parses-unique {m} (more {rest = rest} {fs = fs} p c r)
      (more {rest = rest'} {tail = t} {fs = gs} {e = x} q d s) =
    let same : rest' ≡ rest = cc in
    let (fs_eq, tail_eq, e_eq) =
      Parses-unique r (subst (λ (l : List ℕ). Parses m l gs t x) same s) in
    (cc fs_eq, tail_eq, e_eq)

-- A stream that arrives in two parts: what the first left unread is parsed with the second.
pub Parses-append :
    {m : ℕ} {bytes tail : List ℕ} {fs : List Frame} {e : Option CodecError} (behind : List ℕ)
    → Parses m bytes fs tail e
    → e ≡ none
    → {gs : List Frame} {tail' : List ℕ} {e' : Option CodecError}
    → Parses m (tail ++ behind) gs tail' e'
    → Parses m (bytes ++ behind) (fs ++ gs) tail' e'
Parses-append behind (stop p) n q = q
Parses-append behind (bad p) n q = cc
Parses-append {m} {bytes} behind (more {f = f} {size = size} p c r) n q =
    more (next_frame-append m bytes behind f size p)
      (rw c (sym (drop-append_le size bytes behind (next_frame-size m bytes f size p).1)))
      (Parses-append behind r n q)

next_frame-append_bad :
    (m : ℕ) (bytes behind : List ℕ) (e : CodecError)
    → next_frame m bytes ≡ malformed e
    → next_frame m (bytes ++ behind) ≡ malformed e
unfolding next_frame
next_frame-append_bad m bytes behind e h =
    ground (arith, length-append bytes behind, take-append_le 32 bytes behind)

-- Nor does anything that follows mend a malformed header.
pub Parses-append_bad :
    {m : ℕ} {bytes tail : List ℕ} {fs : List Frame} {e : Option CodecError} (behind : List ℕ)
    → Parses m bytes fs tail e
    → e ≢ none
    → Parses m (bytes ++ behind) fs (tail ++ behind) e
Parses-append_bad behind (stop p) n = absurd (n refl)
Parses-append_bad {m} {bytes} behind (bad {e = e} p) n =
    bad (next_frame-append_bad m bytes behind e p)
Parses-append_bad {m} {bytes} behind (more {f = f} {size = size} p c r) n =
    more (next_frame-append m bytes behind f size p)
      (rw c (sym (drop-append_le size bytes behind (next_frame-size m bytes f size p).1)))
      (Parses-append_bad behind r n)

-- The bytes of a frame on the wire.
abbrev pub wire : Frame → List ℕ
wire f = encode_header f.header ++ f.payload

abbrev pub wire_all : List Frame → List ℕ
wire_all [] = []
wire_all (f ∷ fs) = wire f ++ wire_all fs

abbrev pub IsFrame : ℕ → Frame → Type 0
IsFrame m f = IsHeader m f.header × (length f.payload ≡ f.header.payload_length)

next_frame-wire :
    (m : ℕ) (f : Frame) (rest : List ℕ)
    → IsFrame m f
    → next_frame m (wire f ++ rest) ≡ complete f (32 + f.header.payload_length)
next_frame-wire m f rest (good, size) =
    let assoc = append_assoc (encode_header f.header) f.payload rest in
    let long = length-encode_header f.header in
    next_frame_decoded m (wire f ++ rest) f.header
      (rw (assoc, take-append (encode_header f.header) (f.payload ++ rest) 32 (sym long))
        (rw append-nil at (decode_header-encode_header f.header [] m good)))
      (omega (
        arith,
        long,
        length-append (wire f) rest,
        length-append (encode_header f.header) f.payload,
      ))
    ∙ ap
        (λ (payload : List ℕ).
          complete (record { header = f.header; payload = payload }) (32 + f.header.payload_length))
        (rw (assoc, drop-append (encode_header f.header) (f.payload ++ rest) 32 (sym long))
          (take-append f.payload rest f.header.payload_length (sym size)))

-- The frames of the program, written one behind the other, are what their bytes parse to.
pub Parses-wire_all :
    (m : ℕ) (fs : List Frame) → All (IsFrame m) fs → Parses m (wire_all fs) fs [] none
Parses-wire_all m [] h = stop {bytes = []} (unfold next_frame in refl)
Parses-wire_all m (f ∷ fs) h =
    more (next_frame-wire m f (wire_all fs) h.0)
      (sym (
        drop-append (wire f) (wire_all fs) (32 + f.header.payload_length) (
          omega (
            arith,
            h.0.1,
            length-append (encode_header f.header) f.payload,
            length-encode_header f.header,
          ))))
      (Parses-wire_all m fs h.1)
