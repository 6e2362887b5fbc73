-- ===== src/FileTransfer/Send.antt =====
-- send_file of src/common/file_transfer.cpp, with read_source_metadata.
pub mod Checks
pub mod Sent
pub mod Steps
pub mod Whole
use syncwire.Common.{
  ℕ, zero, suc, ◌+◌, ◌-◌, ◌≡◌, Bool, true, false, List, [], ◌∷◌, Option, none, some, not, ◌&&◌,
  ◌||◌, ltb, ◌==◌, if◌then◌else◌, length, min, Outcome, ok, err, then_do, handle, attempt, map_err,
}
use syncwire.Protocol.{
  Frame, MessageType, type_eq, upload_request, transfer_ready, transfer_result, transfer_complete,
  file_chunk, acknowledgment,
}
use syncwire.Crc32.{initial_state, update, update_all, value}
use syncwire.Paths.{is_safe_remote_path}
use syncwire.TransferCodec.{
  UploadMetadata, TransferReady, encode_upload_metadata, decode_transfer_ready, encode_file_chunk,
  decode_offset,
}
use syncwire.FrameIo.{FrameIoResult, frame_io_ok}
use syncwire.Link.{Link}
use syncwire.FileTransfer.{
  TransferLimits, FileTransferStatus, FileTransferResult, with_status, with_errno, transfer_ok,
  frame_error, make_frame, valid_limits, decode_remote_result, receive_expected_frame,
}

-- The calls on the source file: file_size, the opening of a stream, reading it in blocks to its end, reading at most so many bytes
-- of it, going back to its start, and errno. A failed call gives an error number.
pub record Source (World : Type 0) : Type 0 where
  pub file_size : World → Outcome ℕ ℕ
  pub open_input : World → Option ℕ × World
  pub read_blocks : World → Outcome ℕ (List (List ℕ)) × World
  pub read : ℕ → World → List ℕ × World
  pub seek_start : World → Bool × World
  pub errno : World → ℕ

-- What is checked before the source is read.
unfoldable pub check_upload : TransferLimits → List ℕ → ℕ → Outcome FileTransferResult (Unit {0})
check_upload limits remote_filename request_id =
    if request_id == 0
    then err (with_status FileTransferStatus.invalid_request_id)
    else if not (is_safe_remote_path remote_filename)
    then err (with_status FileTransferStatus.invalid_path)
    else if not (valid_limits limits)
    then err (with_status FileTransferStatus.invalid_request)
    else ok tt

unfoldable pub check_source_size : TransferLimits → ℕ → Outcome FileTransferResult (Unit {0})
check_source_size limits raw_size =
    if ltb limits.max_file_size raw_size
    then err (with_status FileTransferStatus.file_too_large)
    else ok tt

-- A TransferResult in place of TransferReady; it may not be a success.
unfoldable pub rejection_of : Frame → FileTransferResult
unfolding decode_remote_result
rejection_of ready =
    let rejection = decode_remote_result ready in
    if not (ready.header.transfer_id == 0)
    then record (with_status FileTransferStatus.invalid_transfer_id) {
      actual_id = ready.header.transfer_id;
    }
    else if transfer_ok rejection.status
    then record rejection { status = FileTransferStatus.unexpected_frame }
    else rejection

unfoldable pub check_checkpoint : ℕ → ℕ → TransferReady → Outcome FileTransferResult TransferReady
check_checkpoint file_size transfer_id checkpoint =
    if ltb file_size checkpoint.offset
      || (checkpoint.offset == 0 && not (checkpoint.prefix_checksum == 0))
    then err (with_status FileTransferStatus.unexpected_offset)
    else if transfer_id == 0
    then err (with_status FileTransferStatus.invalid_transfer_id)
    else ok checkpoint

-- The checks of the first response.
unfoldable pub check_ready : ℕ → ℕ → Frame → Outcome FileTransferResult TransferReady
unfolding rejection_of check_checkpoint
check_ready request_id file_size ready =
    if not (ready.header.request_id == request_id)
    then err (record (with_status FileTransferStatus.mismatched_request_id) {
      expected_id = request_id;
      actual_id = ready.header.request_id;
    })
    else if type_eq ready.header.message_type transfer_result
    then err (rejection_of ready)
    else if not (type_eq ready.header.message_type transfer_ready)
    then err (with_status FileTransferStatus.unexpected_message_type)
    else elim (decode_transfer_ready ready.payload) [
      | err e ↦ err (with_status FileTransferStatus.invalid_payload)
      | ok checkpoint ↦ check_checkpoint file_size ready.header.transfer_id checkpoint
    ]

-- The checks of an acknowledgment, with `offset` bytes sent.
unfoldable pub check_acknowledgment : ℕ → Frame → Outcome FileTransferResult ℕ
check_acknowledgment offset acknowledgment_frame =
    elim (decode_offset acknowledgment_frame.payload) [
      | err e ↦ err (record (with_status FileTransferStatus.invalid_payload) {
        codec_error = some e;
        transferred = offset;
      })
      | ok acknowledged ↦
          if not (acknowledged == offset)
          then err (record (with_status FileTransferStatus.unexpected_offset) {
            transferred = offset;
            expected_id = offset;
            actual_id = acknowledged;
          })
          else ok offset
    ]

module _ (l : Link) (source : Source l.World) (limits : TransferLimits) where
  open l use {World, send, receive}

  unfoldable pub read_source_metadata :
      List ℕ → World → Outcome FileTransferResult UploadMetadata × World
  unfolding check_source_size
  read_source_metadata filename w =
      then_do (map_err (with_errno FileTransferStatus.file_open_error) (source.file_size w, w))
        (λ raw_size w1.
          then_do (check_source_size limits raw_size, w1)
            (λ u w2.
              then_do
                (map_err (with_errno FileTransferStatus.file_open_error)
                  (attempt (source.open_input w2)))
                (λ u' w3.
                  then_do
                    (map_err (with_errno FileTransferStatus.file_read_error)
                      (source.read_blocks w3))
                    (λ blocks w4. (
                      ok (record {
                        filename = filename;
                        file_size = raw_size;
                        checksum = value (update_all initial_state blocks);
                      }),
                      w4,
                    )))))

  -- A send whose failure ends the upload.
  unfoldable pub send_or_fail : Frame → World → Outcome FileTransferResult (Unit {0}) × World
  unfolding frame_error
  send_or_fail frame w =
      let sent = send frame w in
      if not (frame_io_ok sent.0.status)
      then (err (frame_error sent.0), sent.1)
      else (ok tt, sent.1)

  -- The first response: the checkpoint, with the transfer ID.
  unfoldable pub await_ready :
      ℕ → ℕ → World → Outcome FileTransferResult (TransferReady × ℕ) × World
  unfolding check_ready frame_error
  await_ready request_id file_size w =
      let received = receive w in
      elim received.0 [
        | err io ↦ (err (frame_error io), received.1)
        | ok ready ↦
            then_do (check_ready request_id file_size ready, received.1)
              (λ checkpoint w1. (ok (checkpoint, ready.header.transfer_id), w1))
      ]

  -- The loop over the prefix that the server has, with `rest` bytes of it to read. Each round takes a
  -- byte at least, so as many rounds as bytes are enough.
  unfoldable pub read_prefix : ℕ → ℕ → ℕ → World → Outcome FileTransferResult ℕ × World
  unfolding update
  read_prefix zero rest checksum w = (ok checksum, w)
  read_prefix (suc fuel) rest checksum w =
      let requested = min rest limits.chunk_size in
      let got = source.read requested w in
      elim (rest == 0) [
        | true ↦ (ok checksum, w)
        | false ↦ elim (length got.0 == requested) [
          | false ↦ (err (with_status FileTransferStatus.file_read_error), got.1)
          | true ↦ read_prefix fuel (rest - requested) (update checksum got.0) got.1
        ]
      ]

  -- The stream goes back to its start, unless it goes on from the checkpoint.
  unfoldable pub rewind_unless : ℕ → World → Outcome FileTransferResult ℕ × World
  rewind_unless resumed_from w =
      let rewound = source.seek_start w in
      if not (resumed_from == 0)
      then (ok resumed_from, w)
      else if not rewound.0
      then (err (with_status FileTransferStatus.file_read_error), rewound.1)
      else (ok 0, rewound.1)

  -- The prefix is kept where its checksum is the server's.
  unfoldable pub choose_offset : TransferReady → World → Outcome FileTransferResult ℕ × World
  unfolding read_prefix value rewind_unless
  choose_offset checkpoint w =
      then_do (read_prefix checkpoint.offset checkpoint.offset initial_state w) (λ checksum w1.
        rewind_unless
          (if value checksum == checkpoint.prefix_checksum then checkpoint.offset else 0) w1)

  -- One round of the loop over the chunks: the offset behind the chunk.
  unfoldable pub send_chunk : ℕ → ℕ → ℕ → ℕ → World → Outcome FileTransferResult ℕ × World
  unfolding send_or_fail check_acknowledgment receive_expected_frame make_frame
  send_chunk request_id transfer_id file_size offset w =
      let requested = min (file_size - offset) limits.chunk_size in
      let got = source.read requested w in
      if not (length got.0 == requested)
      then (
        err (record (with_errno FileTransferStatus.file_read_error (source.errno got.1)) {
          transferred = offset;
        }),
        got.1,
      )
      else then_do
          (send_or_fail
            (make_frame file_chunk request_id transfer_id (encode_file_chunk offset got.0)) got.1)
          (λ u w1.
            then_do (receive_expected_frame l acknowledgment request_id transfer_id w1)
              (λ frame w2. (check_acknowledgment (offset + length got.0) frame, w2)))

  -- The loop over the chunks. A chunk has a byte at least, so as many rounds as bytes are enough.
  unfoldable pub send_chunks : ℕ → ℕ → ℕ → ℕ → ℕ → World → Outcome FileTransferResult ℕ × World
  unfolding send_chunk
  send_chunks zero request_id transfer_id file_size offset w = (ok offset, w)
  send_chunks (suc fuel) request_id transfer_id file_size offset w = elim (ltb offset file_size) [
    | false ↦ (ok offset, w)
    | true ↦
        then_do (send_chunk request_id transfer_id file_size offset w)
          (λ offset' w'. send_chunks fuel request_id transfer_id file_size offset' w')
  ]

  -- TransferComplete, and the server's result.
  unfoldable pub conclude_upload :
      ℕ → ℕ → UploadMetadata → ℕ → ℕ → World → Outcome FileTransferResult FileTransferResult × World
  unfolding send_or_fail receive_expected_frame make_frame decode_remote_result
  conclude_upload request_id transfer_id metadata resumed_from offset w =
      then_do (send_or_fail (make_frame transfer_complete request_id transfer_id []) w) (λ u w1.
        then_do (receive_expected_frame l transfer_result request_id transfer_id w1)
          (λ final_response w2. (
            ok (record (decode_remote_result final_response) {
              transferred = offset;
              expected_checksum = metadata.checksum;
              resumed_from = resumed_from;
            }),
            w2,
          )))

  -- From the server's checkpoint on.
  unfoldable pub upload :
      ℕ
      → UploadMetadata
      → TransferReady × ℕ
      → World
      → Outcome FileTransferResult FileTransferResult × World
  unfolding choose_offset send_chunks conclude_upload
  upload request_id metadata (checkpoint, transfer_id) w =
      then_do
        (map_err (with_errno FileTransferStatus.file_open_error) (attempt (source.open_input w)))
        (λ u w1. then_do (choose_offset checkpoint w1) (λ resumed_from w2.
          then_do
            (send_chunks metadata.file_size request_id transfer_id metadata.file_size resumed_from
              w2)
            (λ offset w3. conclude_upload request_id transfer_id metadata resumed_from offset w3)))

  unfoldable pub run_upload :
      List ℕ → ℕ → World → Outcome FileTransferResult FileTransferResult × World
  unfolding check_upload read_source_metadata send_or_fail await_ready upload make_frame
  run_upload remote_filename request_id w =
      then_do (check_upload limits remote_filename request_id, w)
        (λ u w1. then_do (read_source_metadata remote_filename w1) (λ metadata w2.
          then_do
            (send_or_fail (make_frame upload_request request_id 0 (encode_upload_metadata metadata))
              w2)
            (λ u' w3.
              then_do (await_ready request_id metadata.file_size w3)
                (λ ready w4. upload request_id metadata ready w4))))

  unfoldable pub send_file : List ℕ → ℕ → World → FileTransferResult × World
  unfolding run_upload
  send_file remote_filename request_id w =
      handle (run_upload remote_filename request_id w) (λ result w1. (result, w1))
        (λ result w1. (result, w1))
