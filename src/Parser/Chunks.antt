-- ===== src/Parser/Chunks.antt =====
-- A FrameParser (src/common/frame_parser.cpp) fed read after read.
use syncwire.Common.{
  ℕ, ◌+◌, ◌≤◌, ◌≡◌, refl, sym, subst, ◌∙◌, List, [], ◌∷◌, ◌++◌, Option, none, some, length, arith,
  All, Option-cases, inl, inr,
}
use mathlib.Core.Path.{subst₂}
use mathlib.Core.List.{append_assoc, append-nil}
use syncwire.Protocol.{Frame, CodecError}
use syncwire.Parser.{FrameParser, ParseBatch, consume, unread, new_parser, next_frame, incomplete}
use syncwire.Parser.Stream.{
  Parses, stop, Parses-append, Parses-append_bad, Parses-short, Parses-rest, Parses-unique,
  Parses-wire_all, wire_all, IsFrame,
}
use syncwire.Parser.Refines.{IsParser, Consumed, consume-Consumed, consume_failed}

-- The reads of a connection, given to consume one after the other.
pub feed : FrameParser → List (List ℕ) → FrameParser × List Frame
feed p [] = (p, [])
feed p (c ∷ cs) =
    let out = consume p c in let later = feed out.0 cs in (later.0, out.1.frames ++ later.1)

abbrev pub joined : List (List ℕ) → List ℕ
joined [] = []
joined (c ∷ cs) = c ++ joined cs

-- A read that always finds room: the buffer holds one frame of the greatest size beside it.
abbrev pub Fits : FrameParser → List ℕ → Type 0
Fits p c = 32 + p.max_payload + length c ≤ p.max_buffer

feed_failed :
    (p : FrameParser) (cs : List (List ℕ)) (e : CodecError)
    → p.terminal_error ≡ some e
    → feed p cs ≡ (p, [])
unfolding feed
feed_failed p [] e h = refl
feed_failed p (c ∷ cs) e h = rw (consume_failed p c e h, feed_failed p cs e h)

Consumed-IsParser :
    (p : FrameParser) (c : List ℕ) (q : FrameParser) (b : ParseBatch)
    → Fits p c
    → Consumed p c q b
    → b.error ≡ none
    → IsParser q
Consumed-IsParser p c q b fits did going =
    let short = Parses-short did.parses going in
    record {
      within = did.in_range;
      going = did.same_error ∙ going;
      short = rw did.same_payload short;
      held = rw did.same_buffer (omega arith);
    }

All-Fits :
    (p q : FrameParser) (cs : List (List ℕ))
    → q.max_payload ≡ p.max_payload
    → q.max_buffer ≡ p.max_buffer
    → All (Fits p) cs
    → All (Fits q) cs
All-Fits p q [] e f h = tt
All-Fits p q (c ∷ cs) e f h = (omega (arith, h.0), All-Fits p q cs e f h.1)

-- What the reads give is what the joined stream parses to.
pub feed-Parses :
    (p : FrameParser) (cs : List (List ℕ))
    → IsParser p
    → next_frame p.max_payload (unread p) ≡ incomplete
    → All (Fits p) cs
    → (tail : List ℕ) × Parses p.max_payload
        (unread p ++ joined cs)
        (feed p cs).1
        tail
        (feed p cs).0.terminal_error
unfolding feed
feed-Parses p [] v at_rest h = (
  unread p,
  subst₂ (λ (l : List ℕ) (e : Option CodecError). Parses p.max_payload l [] (unread p) e)
      (sym (append-nil (unread p))) (sym v.going)
      (subst (λ (l : List ℕ). Parses p.max_payload (unread p) [] l none) refl (stop at_rest)),
)
feed-Parses p (c ∷ cs) v at_rest h = elim (Option-cases (consume p c).1.error) [
  | inl going ↦
      let (tail, rest) =
        feed-Parses (consume p c).0 cs (Consumed-IsParser p c _ _ h.0 did going)
          (rw did.same_payload (Parses-rest did.parses going))
          (All-Fits p (consume p c).0 cs did.same_payload did.same_buffer h.1) in
      (
        tail,
        subst
            (λ (l : List ℕ).
              Parses p.max_payload l ((consume p c).1.frames ++ (feed (consume p c).0 cs).1) tail
                (feed (consume p c).0 cs).0.terminal_error)
            (append_assoc (unread p) c (joined cs))
            (Parses-append (joined cs) did.parses going (
              subst
                (λ (m : ℕ).
                  Parses m (unread (consume p c).0 ++ joined cs) (feed (consume p c).0 cs).1 tail
                    (feed (consume p c).0 cs).0.terminal_error)
                did.same_payload rest)),
      )
  | inr (e, failed) ↦
      rw (feed_failed (consume p c).0 cs e (did.same_error ∙ failed), did.same_error)
        (
          unread (consume p c).0 ++ joined cs,
          subst₂
              (λ (l : List ℕ) (fs : List Frame).
                Parses p.max_payload l fs (unread (consume p c).0 ++ joined cs)
                  (consume p c).1.error)
              (append_assoc (unread p) c (joined cs)) (sym (append-nil (consume p c).1.frames))
              (Parses-append_bad (joined cs) did.parses (λ n. cc)),
        )
]
  where
    did : Consumed p c (consume p c).0 (consume p c).1
    did = consume-Consumed p c v (omega (arith, v.short, h.0))

new_parser-IsParser :
    (m size : ℕ) (p : FrameParser)
    → new_parser m size ≡ some p
    → IsParser p
      × (next_frame p.max_payload (unread p) ≡ incomplete)
      × (unread p ≡ [])
      × (p.max_payload ≡ m)
      × (p.max_buffer ≡ size)
unfolding new_parser next_frame
new_parser-IsParser m size p e = ground arith

-- A new parser fed the same stream in two ways, by reads that each leave room for a greatest
-- frame: however the stream is cut into the reads, the same frames come out and the same error
-- stays.
pub feed_chunking :
    (m size : ℕ) (p : FrameParser) (cs ds : List (List ℕ))
    → new_parser m size ≡ some p
    → All (Fits p) cs
    → All (Fits p) ds
    → joined cs ≡ joined ds
    → ((feed p cs).1 ≡ (feed p ds).1)
      × ((feed p cs).0.terminal_error ≡ (feed p ds).0.terminal_error)
feed_chunking m size p cs ds made hc hd same =
    let (v, at_rest, _, _, _) = new_parser-IsParser m size p made in
    let (_, left) = feed-Parses p cs v at_rest hc in
    let (_, right) = feed-Parses p ds v at_rest hd in
    let (frames, _, error) = Parses-unique (rw same at left) right in (frames, error)

-- Frames that the program may send, with payloads up to the parser's limit, reach a new parser in
-- reads that each leave room for a greatest frame: however their bytes are cut into the reads,
-- exactly these frames come out, in order, and no error stays.
pub feed-wire_all :
    (m size : ℕ) (p : FrameParser) (cs : List (List ℕ)) (fs : List Frame)
    → new_parser m size ≡ some p
    → All (Fits p) cs
    → joined cs ≡ wire_all fs
    → All (IsFrame m) fs
    → ((feed p cs).1 ≡ fs) × ((feed p cs).0.terminal_error ≡ none)
feed-wire_all m size p cs fs made hc same good =
    let (v, at_rest, empty, payload, _) = new_parser-IsParser m size p made in
    let (tail, got) = feed-Parses p cs v at_rest hc in
    let (frames, _, error) =
      Parses-unique (simp (empty, payload, same) at got) (Parses-wire_all m fs good) in
    (frames, error)
