-- ===== src/FileTransfer/Send/Sent.antt =====
-- send_file of src/common/file_transfer.cpp: what it has sent when it succeeds, frame by frame.
use syncwire.Common.{
  ℕ, zero, suc, ◌+◌, ◌-◌, ◌≤◌, ◌<◌, ◌≡◌, refl, ap, sym, ◌∙◌, true, false, List, [], ◌∷◌, ◌++◌, none,
  ltb, ◌==◌, ==_iff, length, take, drop, drop-drop, drop_all, take-append-drop, ltb→lt, min, All,
  Outcome, ok, err, then_do, Ensures, Ensures-then_do, arith, Bool-cases, Outcome-cases, inl, inr,
}
use mathlib.Core.List.{append_assoc, append-nil}
use syncwire.Protocol.{Frame, MessageType, file_chunk, acknowledgment}
use syncwire.Crc32.{file_of}
use syncwire.TransferCodec.{encode_file_chunk}
use syncwire.FrameIo.{frame_io_ok}
use syncwire.Link.{Link}
use syncwire.FileTransfer.{
  TransferLimits, FileTransferResult, transfer_ok, frame_error, make_frame, receive_expected_frame,
  check_expected_frame,
}
use syncwire.FileTransfer.Receive.Checks.{Answers}
use syncwire.FileTransfer.Send.{Source, check_acknowledgment, send_or_fail, send_chunk, send_chunks}
use syncwire.FileTransfer.Send.Checks.{check_acknowledgment-Answers, check_expected_frame-Answers}

-- A source that stays as it is, read through a stream with a position, and a connection that keeps
-- count of the frames that it has taken.
pub record SourceLaws (l : Link) (source : Source l.World) : Type 0 where
  pub content : List ℕ
  pub position : l.World → ℕ
  pub log : l.World → List Frame
  pub size_law : (w : l.World) (n : ℕ) → source.file_size w ≡ ok n → n ≡ length content
  pub open_law :
      (w : l.World)
      → (log (source.open_input w).1 ≡ log w)
        × ((source.open_input w).0 ≡ none → position (source.open_input w).1 ≡ 0)
  pub blocks_law :
      (w : l.World)
      → (log (source.read_blocks w).1 ≡ log w)
        × ((blocks : List (List ℕ))
            → (source.read_blocks w).0 ≡ ok blocks
            → file_of blocks ≡ content)
  pub read_law :
      (n : ℕ) (w : l.World)
      → (log (source.read n w).1 ≡ log w)
        × (length (source.read n w).0 ≡ n
            → ((source.read n w).0 ≡ take n (drop (position w) content))
              × (position (source.read n w).1 ≡ position w + n))
  pub seek_law :
      (w : l.World)
      → (log (source.seek_start w).1 ≡ log w)
        × ((source.seek_start w).0 ≡ true → position (source.seek_start w).1 ≡ 0)
  pub send_law :
      (frame : Frame) (w : l.World)
      → (position (l.send frame w).1 ≡ position w)
        × (frame_io_ok (l.send frame w).0.status ≡ true
            → log (l.send frame w).1 ≡ log w ++ (frame ∷ []))
  pub receive_law :
      (w : l.World) → (position (l.receive w).1 ≡ position w) × (log (l.receive w).1 ≡ log w)

-- The frames of the chunks, from an offset on.
abbrev pub chunk_frames : ℕ → ℕ → ℕ → List (List ℕ) → List Frame
chunk_frames request_id transfer_id offset [] = []
chunk_frames request_id transfer_id offset (piece ∷ pieces) =
    make_frame file_chunk request_id transfer_id (encode_file_chunk offset piece)
    ∷ chunk_frames request_id transfer_id (offset + length piece) pieces

abbrev pub Failed : {W : Type 0} → FileTransferResult → W → Type 0
Failed r w = transfer_ok r.status ≡ false

module _ (l : Link) (source : Source l.World) (laws : SourceLaws l source)
    (limits : TransferLimits) where
  open l use {World, send, receive}
  open laws use {content, position, log}

  abbrev pub Does :
      {A : Type 0} → (A → World → Type 0) → Outcome FileTransferResult A × World → Type 0
  Does P m = Ensures P (Failed {W = World}) m

  pub and_then :
      {A B : Type 0} (P : A → World → Type 0) (R : B → World → Type 0)
      (m : Outcome FileTransferResult A × World)
      (f : A → World → Outcome FileTransferResult B × World)
      → Does P m
      → ((a : A) (w : World) → P a w → Does R (f a w))
      → Does R (then_do m f)
  and_then P R m f h k = Ensures-then_do P R (Failed {W = World}) m f h k

  -- A check that asks no state.
  pub checking :
      {A : Type 0} (P : A → Type 0) (o : Outcome FileTransferResult A) (w : World)
      → Answers P o
      → Does (λ a w'. P a × (w' ≡ w)) (o, w)
  checking P (ok a) w h = (h, refl)
  checking P (err r) w h = h

  pub weaken :
      {A : Type 0} (P R : A → World → Type 0) (m : Outcome FileTransferResult A × World)
      → Does P m
      → ((a : A) (w : World) → P a w → R a w)
      → Does R m
  weaken P R (ok a, w) h k = k a w h
  weaken P R (err r, w) h k = h

  -- A step that succeeds ends in its own state.
  pub at_end :
      {A : Type 0} (P : A → World → Type 0) (m : Outcome FileTransferResult A × World)
      → Does P m
      → Does (λ a w'. (w' ≡ m.1) × P a w') m
  at_end P (ok a, w) h = (refl, h)
  at_end P (err r, w) h = h

  pub send_or_fail-state :
      (frame : Frame) (w : World) → (send_or_fail l source limits frame w).1 ≡ (send frame w).1
  unfolding send_or_fail
  send_or_fail-state frame w = elim (Bool-cases (frame_io_ok (send frame w).0.status)) [
    | inl fine ↦ rw (fine, send_or_fail) refl
    | inr broken ↦ rw (broken, send_or_fail) refl
  ]

  pub send_or_fail-logs :
      (frame : Frame) (w : World)
      → Does
          (λ u w'. (position w' ≡ position w) × (log w' ≡ log w ++ (frame ∷ [])))
          (send_or_fail l source limits frame w)
  unfolding send_or_fail frame_error
  send_or_fail-logs frame w = elim (Bool-cases (frame_io_ok (send frame w).0.status)) [
    | inl fine ↦ rw (fine, send_or_fail) ((laws.send_law frame w).0, (laws.send_law frame w).1 fine)
    | inr broken ↦ rw (broken, send_or_fail) refl
  ]

  pub receive_expected_frame-keeps :
      (type : MessageType) (request_id transfer_id : ℕ) (w : World)
      → Does
          (λ f w'. (position w' ≡ position w) × (log w' ≡ log w))
          (receive_expected_frame l type request_id transfer_id w)
  unfolding receive_expected_frame frame_error
  receive_expected_frame-keeps type request_id transfer_id w =
      let kept = laws.receive_law w in
      elim (Outcome-cases (receive w).0) [
        | inr (io, r) ↦ rw (r, receive_expected_frame) refl
        | inl (frame, r) ↦
            rw (r, receive_expected_frame)
              (by_answer (check_expected_frame type request_id transfer_id frame)
                (check_expected_frame-Answers type request_id transfer_id frame))
      ]
    where
      by_answer :
          (o : Outcome FileTransferResult Frame)
          → Answers (λ f. Unit {0}) o
          → Does (λ f w'. (position w' ≡ position w) × (log w' ≡ log w)) (o, (receive w).1)
      by_answer (ok f) a = laws.receive_law w
      by_answer (err r) a = a

  -- One chunk has been sent and acknowledged.
  abbrev Chunk : ℕ → ℕ → ℕ → ℕ → World → ℕ → World → Type 0
  Chunk request_id transfer_id size offset w offset' w' =
      (piece : List ℕ) × (piece
        ≡ take (min (size - offset) limits.chunk_size) (drop offset content))
      × (length piece ≡ min (size - offset) limits.chunk_size)
      × (offset' ≡ offset + length piece)
      × (position w' ≡ offset + length piece)
      × (log w'
          ≡ log w
            ++ (make_frame file_chunk request_id transfer_id (encode_file_chunk offset piece) ∷ []))

  send_chunk-Chunk :
      (request_id transfer_id size offset : ℕ) (w : World)
      → position w ≡ offset
      → Does
          (Chunk request_id transfer_id size offset w)
          (send_chunk l source limits request_id transfer_id size offset w)
  unfolding send_chunk
  send_chunk-Chunk request_id transfer_id size offset w here =
      let requested = min (size - offset) limits.chunk_size in
      let piece = (source.read requested w).0 in
      let w1 = (source.read requested w).1 in
      let (kept, got) = laws.read_law requested w in
      elim (Bool-cases (length piece == requested)) [
        | inr short ↦ rw (short, send_chunk) refl
        | inl full ↦
            let whole = (==_iff (length piece) requested).0 full in
            let (same, moved) = got whole in
            let frame =
              make_frame file_chunk request_id transfer_id (encode_file_chunk offset piece) in
            rw (full, send_chunk)
              (and_then
                (λ (u : Unit {0}) w'.
                  (position w' ≡ position w1) × (log w' ≡ log w1 ++ (frame ∷ [])))
                (Chunk request_id transfer_id size offset w) (send_or_fail l source limits frame w1)
                _ (send_or_fail-logs frame w1)
                (λ u w2 (p2, l2).
                  and_then (λ (f : Frame) w'. (position w' ≡ position w2) × (log w' ≡ log w2))
                    (Chunk request_id transfer_id size offset w)
                    (receive_expected_frame l acknowledgment request_id transfer_id w2) _
                    (receive_expected_frame-keeps acknowledgment request_id transfer_id w2)
                    (λ f w3 (p3, l3).
                      weaken (λ (n : ℕ) w'. (n ≡ offset + length piece) × (w' ≡ w3))
                        (Chunk request_id transfer_id size offset w)
                        (check_acknowledgment (offset + length piece) f, w3)
                        (checking (λ (n : ℕ). n ≡ offset + length piece)
                          (check_acknowledgment (offset + length piece) f) w3
                          (check_acknowledgment-Answers (offset + length piece) f))
                        (λ n w' (e, there). (
                          piece,
                          same ∙ ap (λ (k : ℕ). take requested (drop k content)) here,
                          whole,
                          e,
                          omega (arith, ap position there, p3, p2, moved, here, whole),
                          ap log there
                              ∙ l3
                              ∙ l2
                              ∙ ap (λ (fs : List Frame). fs ++ (frame ∷ [])) kept,
                        )))))
      ]

  -- The chunks from an offset on have been sent and acknowledged, up to the end of the source.
  abbrev pub Chunks : ℕ → ℕ → ℕ → World → ℕ → World → Type 0
  Chunks request_id transfer_id offset w offset' w' =
      (pieces : List (List ℕ)) × (file_of pieces ≡ drop offset content)
      × All (λ (p : List ℕ). (0 < length p) × (length p ≤ limits.chunk_size)) pieces
      × (offset' ≡ length content)
      × (log w' ≡ log w ++ chunk_frames request_id transfer_id offset pieces)

  nothing_left :
      (request_id transfer_id offset : ℕ) (w : World)
      → offset ≤ length content
      → length content ≤ offset
      → Chunks request_id transfer_id offset w offset w
  nothing_left request_id transfer_id offset w below above =
      ([], sym (drop_all offset content above), tt, omega arith, sym (append-nil (log w)))

  one_more :
      (request_id transfer_id offset : ℕ) (w : World) (offset1 : ℕ) (w1 : World) (offset' : ℕ)
      (w' : World)
      → 0 < limits.chunk_size
      → offset < length content
      → Chunk request_id transfer_id (length content) offset w offset1 w1
      → Chunks request_id transfer_id offset1 w1 offset' w'
      → Chunks request_id transfer_id offset w offset' w'
  one_more request_id transfer_id offset w offset1 w1 offset' w' room more
        (piece, is, size, on, moved, logged) (pieces, rest, fine, ended, log_rest) =
      let requested = min (length content - offset) limits.chunk_size in
      (
        piece ∷ pieces,
        ap (λ (l : List ℕ). piece ++ l)
              (rest
                ∙ ap (λ (k : ℕ). drop k content) (omega (arith, on, size))
                ∙ sym (drop-drop offset requested content))
            ∙ ap (λ (l : List ℕ). l ++ drop requested (drop offset content)) is
            ∙ take-append-drop requested (drop offset content),
        ((omega (arith, size), omega (arith, size)), fine),
        ended,
        log_rest
            ∙ ap (λ (l : List Frame). l ++ chunk_frames request_id transfer_id offset1 pieces)
                logged
            ∙ append_assoc (log w)
                (make_frame file_chunk request_id transfer_id (encode_file_chunk offset piece) ∷ [])
                (chunk_frames request_id transfer_id offset1 pieces)
            ∙ ap
                (λ (k : ℕ).
                  log w
                  ++ (make_frame file_chunk request_id transfer_id (encode_file_chunk offset piece)
                      ∷ chunk_frames request_id transfer_id k pieces))
                on,
      )

  pub send_chunks-Chunks :
      (fuel request_id transfer_id offset : ℕ) (w : World)
      → 0 < limits.chunk_size
      → offset ≤ length content
      → length content - offset ≤ fuel
      → position w ≡ offset
      → Does
          (Chunks request_id transfer_id offset w)
          (send_chunks l source limits fuel request_id transfer_id (length content) offset w)
  unfolding send_chunks
  send_chunks-Chunks zero request_id transfer_id offset w room below enough here =
      nothing_left request_id transfer_id offset w below (omega arith)
  send_chunks-Chunks (suc fuel) request_id transfer_id offset w room below enough here =
      elim (Bool-cases (ltb offset (length content))) [
        | inr done ↦
            rw (done, send_chunks)
              (nothing_left request_id transfer_id offset w below (ground (arith, done)))
        | inl more ↦
            rw (more, send_chunks)
              (and_then (Chunk request_id transfer_id (length content) offset w)
                (Chunks request_id transfer_id offset w)
                (send_chunk l source limits request_id transfer_id (length content) offset w) _
                (send_chunk-Chunk request_id transfer_id (length content) offset w here)
                (λ offset1 w1 chunk.
                  let (piece, is, size, on, moved, logged) = chunk in
                  weaken (Chunks request_id transfer_id offset1 w1)
                    (Chunks request_id transfer_id offset w)
                    (send_chunks l source limits fuel request_id transfer_id (length content)
                      offset1 w1)
                    (send_chunks-Chunks fuel request_id transfer_id offset1 w1 room
                      (omega (arith, size, on, ltb→lt _ _ more))
                      (omega (arith, size, on, ltb→lt _ _ more)) (moved ∙ sym on))
                    (λ offset' w' chunks.
                      one_more request_id transfer_id offset w offset1 w1 offset' w' room
                        (ltb→lt _ _ more) chunk chunks)))
      ]
