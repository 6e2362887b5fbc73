-- ===== src/FileTransfer/Send/Checks.antt =====
-- send_file of src/common/file_transfer.cpp: its checks.
use syncwire.Common.{
  ℕ, ◌≤◌, ◌<◌, ◌≡◌, refl, false, List, not, ◌&&◌, ◌||◌, ltb, ◌==◌, ==_iff, ok, arith, Bool-cases,
  Outcome-cases, inl, inr,
}
use syncwire.Protocol.{Frame, MessageType, type_eq, type_eq→eq, transfer_ready, transfer_result}
use syncwire.TransferCodec.{TransferReady, decode_transfer_ready, decode_offset}
use syncwire.FileTransfer.{
  TransferLimits, transfer_ok, valid_limits, decode_remote_result, check_expected_frame,
}
use syncwire.FileTransfer.Receive.Checks.{Answers}
use syncwire.FileTransfer.Send.{
  check_upload, rejection_of, check_checkpoint, check_ready, check_acknowledgment,
}

pub check_upload-Answers :
    (limits : TransferLimits) (name : List ℕ) (id : ℕ)
    → Answers (λ u. 0 < limits.chunk_size) (check_upload limits name id)
unfolding check_upload valid_limits
check_upload-Answers limits name id = elim (Outcome-cases (check_upload limits name id)) [
  | inl (u, e) ↦ rw e (ground (arith, e))
  | inr (r, e) ↦ rw e (ground (arith, e))
]

rejection_of-fails : (ready : Frame) → transfer_ok (rejection_of ready).status ≡ false
unfolding rejection_of
rejection_of-fails ready = elim (Bool-cases (ready.header.transfer_id == 0)) [
  | inr other ↦ rw (other, rejection_of) refl
  | inl same ↦ elim (Bool-cases (transfer_ok (decode_remote_result ready).status)) [
    | inl good ↦ rw (same, rejection_of, good) refl
    | inr bad ↦ rw (same, rejection_of, bad) bad
  ]
]

-- What a checkpoint that is taken up is read from: a TransferReady for the request.
abbrev pub Offers : ℕ → ℕ → Frame → TransferReady → Type 0
Offers id size ready c =
    (ready.header.message_type ≡ transfer_ready)
    × (ready.header.request_id ≡ id)
    × (decode_transfer_ready ready.payload ≡ ok c)
    × (c.offset ≤ size)

pub check_ready-Answers :
    (id size : ℕ) (ready : Frame) → Answers (Offers id size ready) (check_ready id size ready)
unfolding check_ready check_checkpoint
check_ready-Answers id size ready = elim (Bool-cases (ready.header.request_id == id)) [
  | inr other ↦ rw (other, check_ready) refl
  | inl same ↦ elim (Bool-cases (type_eq ready.header.message_type transfer_result)) [
    | inl result ↦ rw (same, check_ready, result) (rejection_of-fails ready)
    | inr no_result ↦ elim (Bool-cases (type_eq ready.header.message_type transfer_ready)) [
      | inr other ↦ rw (same, check_ready, no_result, other) refl
      | inl is_ready ↦ elim (Outcome-cases (decode_transfer_ready ready.payload)) [
        | inr (e, d) ↦ rw (same, check_ready, no_result, is_ready, d) refl
        | inl (c, d) ↦
            rw (same, check_ready, no_result, is_ready, d)
              (checked c (type_eq→eq ready.header.message_type transfer_ready is_ready)
                ((==_iff _ _).0 same) d)
      ]
    ]
  ]
]
  where
    checked :
        (c : TransferReady)
        → ready.header.message_type ≡ transfer_ready
        → ready.header.request_id ≡ id
        → decode_transfer_ready ready.payload ≡ ok c
        → Answers (Offers id size ready) (check_checkpoint size ready.header.transfer_id c)
    checked c is_ready own d =
        elim (Bool-cases (ltb size c.offset || (c.offset == 0 && not (c.prefix_checksum == 0)))) [
          | inl bad ↦ rw (bad, check_checkpoint) refl
          | inr good ↦ elim (Bool-cases (ready.header.transfer_id == 0)) [
            | inl none_ ↦ rw (good, check_checkpoint, none_) refl
            | inr some_id ↦
                rw (good, check_checkpoint, some_id) (is_ready, own, d, ground (arith, good))
          ]
        ]

pub check_acknowledgment-Answers :
    (offset : ℕ) (frame : Frame) → Answers (λ n. n ≡ offset) (check_acknowledgment offset frame)
unfolding check_acknowledgment
check_acknowledgment-Answers offset frame = elim (Outcome-cases (decode_offset frame.payload)) [
  | inr (e, d) ↦ rw (d, check_acknowledgment) refl
  | inl (n, d) ↦ elim (Bool-cases (n == offset)) [
    | inl same ↦ rw (d, check_acknowledgment, same) refl
    | inr other ↦ rw (d, check_acknowledgment, other) refl
  ]
]

pub check_expected_frame-Answers :
    (type : MessageType) (request_id transfer_id : ℕ) (frame : Frame)
    → Answers (λ f. Unit {0}) (check_expected_frame type request_id transfer_id frame)
unfolding check_expected_frame
check_expected_frame-Answers type request_id transfer_id frame =
    elim (Bool-cases (frame.header.request_id == request_id)) [
      | inr other ↦ rw (other, check_expected_frame) refl
      | inl same ↦ elim (Bool-cases (frame.header.transfer_id == transfer_id)) [
        | inr other ↦ rw (same, check_expected_frame, other) refl
        | inl own ↦ elim (Bool-cases (type_eq frame.header.message_type type)) [
          | inr other ↦ rw (same, check_expected_frame, own, other) refl
          | inl right ↦ rw (same, check_expected_frame, own, right) tt
        ]
      ]
    ]
