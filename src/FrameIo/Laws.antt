-- ===== src/FrameIo/Laws.antt =====
-- send_frame and receive_frame of src/common/frame_io.cpp, in terms of the bytes on the socket.
use syncwire.Common.{
  ℕ, ◌+◌, ◌≤◌, ◌≡◌, ◌≢◌, ◌↔◌, refl, ap, sym, ◌∙◌, true, false, List, [], ◌∷◌, ◌++◌, Option, none,
  some, ◌==◌, length, length-append, take, take_all, arith, Bool-cases, Outcome-cases, inl, inr, ok,
  All, zero, suc,
}
use mathlib.Core.List.{append_assoc, append-nil}
use syncwire.Protocol.{Frame, CodecError, default_max_payload}
use syncwire.Wire.{IsByte}
use syncwire.Codec.{encode_header, decode_header}
use syncwire.Codec.RoundTrip.{
  length-encode_header, decode_header-IsHeader, encode_header-decode_header,
}
use syncwire.SocketIo.{IoStatus, Socket, SocketLaws}
use syncwire.SocketIo.Sending.{send_all, send_all-SentAll}
use syncwire.SocketIo.Receiving.{recv_exact, recv_exact-ReceivedAll}
use syncwire.Parser.Stream.{IsFrame}
use syncwire.FrameIo.{
  FrameIoStatus, FrameIoResult, io_ok, frame_io_status, from_io_result, send_payload, send_header,
  not_sent, send_frame, receive_payload,
}

-- The bytes of a frame on the wire.
abbrev pub frame_bytes : Frame → List ℕ
frame_bytes f = encode_header f.header ++ f.payload

length-frame_bytes : (f : Frame) → length (frame_bytes f) ≡ 32 + length f.payload
length-frame_bytes f =
    omega (arith, length-append (encode_header f.header) f.payload, length-encode_header f.header)

take-append_le {ℓ} :
    {A : Type ℓ} (xs ys : List A) (n : ℕ) → n ≤ length xs → take n (xs ++ ys) ≡ take n xs
take-append_le xs ys zero h = refl
take-append_le [] ys (suc n) h = absurd (omega arith)
take-append_le (x ∷ xs) ys (suc n) h = ap (◌∷◌ x) (take-append_le xs ys n (omega arith))

take-append_ge {ℓ} :
    {A : Type ℓ} (xs ys : List A) (n m : ℕ)
    → n ≡ length xs + m
    → take n (xs ++ ys) ≡ xs ++ take m ys
take-append_ge [] ys n m h = ap (λ (k : ℕ). take k ys) (omega arith)
take-append_ge (x ∷ xs) ys zero m h = absurd (omega arith)
take-append_ge (x ∷ xs) ys (suc n) m h = ap (◌∷◌ x) (take-append_ge xs ys n m (omega arith))

pub io_ok-complete : (x : IoStatus) → io_ok x ≡ true → x ≡ IoStatus.complete
io_ok-complete IoStatus.complete h = refl
io_ok-complete IoStatus.peer_closed h = cc
io_ok-complete IoStatus.system_error h = cc

io_ok-failed :
    (x : IoStatus)
    → io_ok x ≡ false
    → (x ≢ IoStatus.complete) × (frame_io_status x ≢ FrameIoStatus.complete)
io_ok-failed IoStatus.complete h = cc
io_ok-failed IoStatus.peer_closed h = (λ e. cc e, λ e. cc e)
io_ok-failed IoStatus.system_error h = (λ e. cc e, λ e. cc e)

module _ (s : Socket) (laws : SocketLaws s) where
  open s use {World}
  open laws use {wire, inbox}

  -- A prefix of the frame is on the wire, all of it exactly when the status is complete.
  pub record SentFrame (f : Frame) (w : World) (r : FrameIoResult) (w' : World) : Type 0 where
    pub in_range : r.transferred ≤ length (frame_bytes f)
    pub on_wire : wire w' ≡ wire w ++ take r.transferred (frame_bytes f)
    pub all_sent : (r.status ≡ FrameIoStatus.complete) ↔ (r.transferred ≡ length (frame_bytes f))
    pub same_inbox : inbox w' ≡ inbox w

  not_sent-SentFrame :
      (f : Frame) (w : World) (e : Option CodecError) → SentFrame f w (not_sent s laws e) w
  not_sent-SentFrame f w e = record {
    in_range = omega arith;
    on_wire = sym (append-nil (wire w));
    all_sent = (λ c. cc c, λ c. absurd (omega (arith, length-frame_bytes f)));
    same_inbox = refl;
  }

  send_payload-SentFrame :
      (f : Frame) (w w1 : World)
      → wire w1 ≡ wire w ++ encode_header f.header
      → inbox w1 ≡ inbox w
      → SentFrame f w (send_payload s laws f w1).0 (send_payload s laws f w1).1
  unfolding send_payload from_io_result
  send_payload-SentFrame f w w1 header same =
      let did = send_all-SentAll s laws f.payload w1 in
      let long = length-frame_bytes f in
      elim (Bool-cases (io_ok (send_all s laws f.payload w1).0.status)) [
        | inl good ↦ rw good (record {
          in_range = omega arith;
          on_wire =
              did.on_wire
              ∙ ap
                  (λ (l : List ℕ). l ++ take (send_all s laws f.payload w1).0.transferred f.payload)
                  header
              ∙ append_assoc (wire w) (encode_header f.header) _
              ∙ ap (◌++◌ (wire w)) (
                  ap (◌++◌ (encode_header f.header))
                    (take_all _ f.payload (omega (arith, did.all_sent.0 (io_ok-complete _ good))))
                  ∙ sym (take_all (32 + length f.payload) (frame_bytes f) (omega arith)));
          all_sent = (λ c. omega arith, λ c. refl);
          same_inbox = did.same_inbox ∙ same;
        })
        | inr bad ↦
            let (left, right) = io_ok-failed _ bad in
            rw bad (record {
              in_range = omega (arith, did.in_range);
              on_wire =
                  did.on_wire
                  ∙ ap
                      (λ (l : List ℕ).
                        l ++ take (send_all s laws f.payload w1).0.transferred f.payload)
                      header
                  ∙ append_assoc (wire w) (encode_header f.header) _
                  ∙ ap (◌++◌ (wire w)) (
                      sym (
                        take-append_ge (encode_header f.header) f.payload
                          (32 + (send_all s laws f.payload w1).0.transferred) _
                          (omega (arith, length-encode_header f.header))));
              all_sent = (λ c. absurd (right c), λ c. absurd (left (did.all_sent.1 (omega arith))));
              same_inbox = did.same_inbox ∙ same;
            })
      ]

  send_header-SentFrame :
      (f : Frame) (w : World) → SentFrame f w (send_header s laws f w).0 (send_header s laws f w).1
  unfolding send_header from_io_result
  send_header-SentFrame f w =
      let did = send_all-SentAll s laws (encode_header f.header) w in
      let long = length-frame_bytes f in
      let size = length-encode_header f.header in
      elim (Bool-cases (io_ok (send_all s laws (encode_header f.header) w).0.status)) [
        | inl good ↦ rw good (
            send_payload-SentFrame f w _
              (did.on_wire
                ∙ ap (◌++◌ (wire w)) (
                    take_all _ (encode_header f.header)
                      (omega (arith, did.all_sent.0 (io_ok-complete _ good)))))
              did.same_inbox)
        | inr bad ↦
            let (left, right) = io_ok-failed _ bad in
            rw bad (record {
              in_range = omega (arith, did.in_range);
              on_wire =
                  did.on_wire
                  ∙ ap (◌++◌ (wire w)) (
                      sym (take-append_le (encode_header f.header) f.payload _ did.in_range)
                      ∙ ap (λ (k : ℕ). take k (frame_bytes f)) (omega arith));
              all_sent = (
                λ c. absurd (right c),
                λ c. absurd (left (did.all_sent.1 (omega (arith, did.in_range)))),
              );
              same_inbox = did.same_inbox;
            })
      ]

  -- On a socket that keeps the documented rules: whatever send_frame returns, what it calls
  -- transferred is the part of the frame's bytes, from the front, that the socket has taken, the
  -- status is complete exactly when that is the whole frame, and nothing is taken from the bytes
  -- to come.
  pub send_frame-SentFrame :
      (f : Frame) (w : World) → SentFrame f w (send_frame s laws f w).0 (send_frame s laws f w).1
  unfolding send_frame
  send_frame-SentFrame f w = elim (Bool-cases (length f.payload == f.header.payload_length)) [
    | inr bad ↦ rw bad (not_sent-SentFrame f w none)
    | inl good ↦ elim (Outcome-cases (decode_header (encode_header f.header) default_max_payload)) [
      | inl (h, e) ↦ rw (good, e) (send_header-SentFrame f w)
      | inr (c, e) ↦ rw (good, e) (not_sent-SentFrame f w (some c))
    ]
  ]

  -- The bytes that receive_frame has taken for a frame are the frame's, whose header is one of the
  -- program's.
  pub receive_payload-IsFrame :
      (max_payload : ℕ) (h f : _) (w w1 : World) (bytes : List ℕ)
      → All IsByte bytes
      → length bytes ≡ 32
      → decode_header bytes max_payload ≡ ok h
      → inbox w ≡ bytes ++ inbox w1
      → (receive_payload s laws h w1).0 ≡ ok f
      → (inbox w ≡ frame_bytes f ++ inbox (receive_payload s laws h w1).1) × IsFrame max_payload f
  unfolding receive_payload
  receive_payload-IsFrame m h f w w1 bytes all size decoded came e =
      let did = recv_exact-ReceivedAll s laws h.payload_length w1 in
      elim (Bool-cases (io_ok (recv_exact s laws h.payload_length w1).0.status)) [
        | inr bad ↦ cc (rw bad at e)
        | inl good ↦
            let same : f
                ≡ record { header = h; payload = (recv_exact s laws h.payload_length w1).1 } =
              cc (rw good at e) in
            rw (good, same)
              (
                came
                    ∙ ap (λ (l : List ℕ). l ++ inbox w1)
                        (sym (
                          encode_header-decode_header bytes m h all decoded
                          ∙ take_all 32 bytes (omega arith)))
                    ∙ ap (◌++◌ (encode_header h)) did.delivered
                    ∙ sym (append_assoc (encode_header h) _ _),
                (
                  decode_header-IsHeader bytes m h all decoded,
                  did.all_received.0 (io_ok-complete _ good),
                ),
              )
      ]
