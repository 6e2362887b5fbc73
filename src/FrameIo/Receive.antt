-- ===== src/FrameIo/Receive.antt =====
-- receive_frame of src/common/frame_io.cpp on the stream of a peer.
use syncwire.Common.{
  ℕ, ◌≡◌, ◌⊎◌, refl, ap, sym, subst, ◌∙◌, false, List, ◌++◌, [], ◌∷◌, length, take, drop,
  take-append, drop-append, Bool-cases, Outcome-cases, inl, inr, Outcome, ok, err, All,
}
use mathlib.Core.List.{append_assoc, append-nil}
use syncwire.Protocol.{Frame}
use syncwire.Wire.{IsByte}
use syncwire.Codec.{encode_header, decode_header}
use syncwire.Codec.RoundTrip.{length-encode_header, decode_header-encode_header}
use syncwire.SocketIo.{IoStatus, IoResult, Socket, SocketLaws}
use syncwire.SocketIo.Receiving.{recv_exact, recv_exact-ReceivedAll}
use syncwire.Parser.Stream.{IsFrame}
use syncwire.FrameIo.{
  FrameIoStatus, FrameIoResult, io_ok, frame_io_status, from_io_result, receive_payload,
  receive_frame,
}
use syncwire.FrameIo.Laws.{frame_bytes, io_ok-complete, receive_payload-IsFrame}

All-append_left {ℓ κ} : {A : Type ℓ} (P : A → Type κ) (xs ys : List A) → All P (xs ++ ys) → All P xs
All-append_left P [] ys h = tt
All-append_left P (x ∷ xs) ys h = (h.0, All-append_left P xs ys h.1)

-- The connection ended or failed before the frame was whole.
abbrev pub Interrupted : FrameIoResult → Type 0
Interrupted r = (r.status ≡ FrameIoStatus.peer_closed) ⊎ (r.status ≡ FrameIoStatus.system_error)

from_io_result-Interrupted :
    (r : IoResult) (n : ℕ) → io_ok r.status ≡ false → Interrupted (from_io_result r n)
unfolding from_io_result
from_io_result-Interrupted r n h = by_status r.status h
  where
    by_status :
        (x : IoStatus)
        → io_ok x ≡ false
        → (frame_io_status x ≡ FrameIoStatus.peer_closed)
          ⊎ (frame_io_status x ≡ FrameIoStatus.system_error)
    by_status IoStatus.complete h = cc
    by_status IoStatus.peer_closed h = inl refl
    by_status IoStatus.system_error h = inr refl

append_split {ℓ} :
    {A : Type ℓ} (xs ys us vs : List A)
    → xs ++ ys ≡ us ++ vs
    → length xs ≡ length us
    → (xs ≡ us) × (ys ≡ vs)
append_split xs ys us vs e h = (
  sym (take-append xs ys (length xs) refl)
      ∙ ap (take (length xs)) e
      ∙ take-append us vs (length xs) h,
  sym (drop-append xs ys (length xs) refl)
      ∙ ap (drop (length xs)) e
      ∙ drop-append us vs (length xs) h,
)

module _ (s : Socket) (laws : SocketLaws s) where
  open s use {World}
  open laws use {wire, inbox}

  abbrev Delivers : Frame → List ℕ → Outcome FrameIoResult Frame × World → Type 0
  Delivers f rest (got, w') =
      ((got ≡ ok f) × (inbox w' ≡ rest)) ⊎ ((r : FrameIoResult) × (got ≡ err r) × Interrupted r)

  receive_payload-Delivers :
      (f : Frame) (rest : List ℕ) (w : World)
      → inbox w ≡ f.payload ++ rest
      → length f.payload ≡ f.header.payload_length
      → Delivers f rest (receive_payload s laws f.header w)
  unfolding receive_payload
  receive_payload-Delivers f rest w stream size =
      let did = recv_exact-ReceivedAll s laws f.header.payload_length w in
      elim (Bool-cases (io_ok (recv_exact s laws f.header.payload_length w).0.status)) [
        | inr bad ↦ rw bad (
            inr (
              _,
              refl,
              from_io_result-Interrupted (recv_exact s laws f.header.payload_length w).0 32 bad,
            ))
        | inl good ↦
            let (payload, left) =
              append_split _ _ f.payload rest (sym did.delivered ∙ stream)
                (did.all_received.0 (io_ok-complete _ good) ∙ sym size) in
            rw (good, payload) (inl (refl, left))
      ]

  -- On a socket that keeps the documented rules, when the bytes to come begin with a frame of the
  -- program, its payload within the limit: receive_frame returns this frame and leaves the bytes
  -- behind it, or it reports that the peer closed or that the system failed.
  pub receive_frame-frame_bytes :
      (max_payload : ℕ) (f : Frame) (rest : List ℕ) (w : World)
      → IsFrame max_payload f
      → inbox w ≡ frame_bytes f ++ rest
      → ((receive_frame s laws max_payload w).0 ≡ ok f)
          × (inbox (receive_frame s laws max_payload w).1 ≡ rest)
        ⊎ ((r : FrameIoResult) × ((receive_frame s laws max_payload w).0 ≡ err r) × Interrupted r)
  unfolding receive_frame
  receive_frame-frame_bytes m f rest w (good_header, size) stream =
      let did = recv_exact-ReceivedAll s laws 32 w in
      elim (Bool-cases (io_ok (recv_exact s laws 32 w).0.status)) [
        | inr bad ↦
            rw bad (inr (_, refl, from_io_result-Interrupted (recv_exact s laws 32 w).0 0 bad))
        | inl good ↦
            let (header, left) =
              append_split _ _ (encode_header f.header) (f.payload ++ rest)
                (sym did.delivered ∙ stream ∙ append_assoc (encode_header f.header) f.payload rest)
                (did.all_received.0 (io_ok-complete _ good)
                  ∙ sym (length-encode_header f.header)) in
            rw
              (
                good,
                header,
                rw append-nil at (decode_header-encode_header f.header [] m good_header),
              )
              (receive_payload-Delivers f rest _ left size)
      ]

  -- On a socket that keeps the documented rules, with bytes below 256 to come: a frame that
  -- receive_frame returns is one that the program may send, its payload within the limit and as
  -- long as its header says, and exactly its bytes have left those to come.
  pub receive_frame-IsFrame :
      (max_payload : ℕ) (f : Frame) (w : World)
      → All IsByte (inbox w)
      → (receive_frame s laws max_payload w).0 ≡ ok f
      → (inbox w ≡ frame_bytes f ++ inbox (receive_frame s laws max_payload w).1)
        × IsFrame max_payload f
  unfolding receive_frame
  receive_frame-IsFrame m f w all e =
      let did = recv_exact-ReceivedAll s laws 32 w in
      elim (Bool-cases (io_ok (recv_exact s laws 32 w).0.status)) [
        | inr bad ↦ cc (rw bad at e)
        | inl good ↦ elim (Outcome-cases (decode_header (recv_exact s laws 32 w).1 m)) [
          | inr (c, bad) ↦ cc (rw (good, bad) at e)
          | inl (h, decoded) ↦
              rw (good, decoded)
                (receive_payload-IsFrame s laws m h f w _ (recv_exact s laws 32 w).1
                  (All-append_left IsByte _ _ (subst (All IsByte) did.delivered all))
                  (did.all_received.0 (io_ok-complete _ good)) decoded did.delivered
                  (rw (good, decoded) at e))
        ]
      ]
