-- ===== src/FileTransfer/Send/Steps.antt =====
-- send_file of src/common/file_transfer.cpp: its steps, in terms of the source and of the frames sent.
use syncwire.Common.{
  ℕ, zero, suc, ◌+◌, ◌-◌, ◌≤◌, ◌<◌, ◌≡◌, ◌≢◌, ◌⊎◌, refl, ap, sym, subst, ◌∙◌, false, List, [], ◌∷◌,
  ◌++◌, Option, none, some, ltb, ◌==◌, ==_iff, length, take, drop, take-drop-take, min, Outcome, ok,
  err, then_do, attempt, map_err, arith, Bool-cases, Outcome-cases, inl, inr,
}
use syncwire.Protocol.{Frame, transfer_result, transfer_complete}
use syncwire.Crc32.{initial_state, update, update-append, update_all-crc32, value, crc32, file_of}
use syncwire.TransferCodec.{UploadMetadata, TransferReady}
use syncwire.FrameIo.{FrameIoResult}
use syncwire.Link.{Link}
use syncwire.FileTransfer.{
  TransferLimits, FileTransferStatus, FileTransferResult, with_errno, frame_error, make_frame,
  receive_expected_frame,
}
use syncwire.FileTransfer.Receive.Checks.{Answers}
use syncwire.FileTransfer.Send.{
  Source, check_source_size, check_ready, read_source_metadata, send_or_fail, await_ready,
  read_prefix, rewind_unless, choose_offset, conclude_upload,
}
use syncwire.FileTransfer.Send.Checks.{Offers, check_ready-Answers}
use syncwire.FileTransfer.Send.Sent.{
  SourceLaws, Does, and_then, weaken, send_or_fail-logs, receive_expected_frame-keeps,
}

module _ (l : Link) (source : Source l.World) (laws : SourceLaws l source)
    (limits : TransferLimits) where
  open l use {World, send, receive}
  open laws use {content, position, log}

  abbrev pub Then :
      {A : Type 0} → (A → World → Type 0) → Outcome FileTransferResult A × World → Type 0
  Then P m = Does l source laws limits P m

  -- The metadata of the source.
  abbrev pub described : List ℕ → UploadMetadata
  described filename = record {
    filename = filename;
    file_size = length content;
    checksum = crc32 content;
  }

  sized :
      (w : World)
      → Then
          (λ n w'. (n ≡ length content) × (w' ≡ w))
          (map_err (with_errno FileTransferStatus.file_open_error) (source.file_size w, w))
  sized w = by_outcome (source.file_size w) refl
    where
      by_outcome :
          (o : Outcome ℕ ℕ)
          → source.file_size w ≡ o
          → Then
              (λ n w'. (n ≡ length content) × (w' ≡ w))
              (map_err (with_errno FileTransferStatus.file_open_error) (o, w))
      by_outcome (ok n) e = (laws.size_law w n e, refl)
      by_outcome (err n) e = refl

  small_enough : (n : ℕ) (w : World) → Then (λ u w'. w' ≡ w) (check_source_size limits n, w)
  unfolding check_source_size
  small_enough n w = elim (Bool-cases (ltb limits.max_file_size n)) [
    | inl large ↦ rw (large, check_source_size) refl
    | inr small ↦ rw (small, check_source_size) refl
  ]

  pub opened :
      (w : World)
      → Then
          (λ u w'. (position w' ≡ 0) × (log w' ≡ log w))
          (map_err (with_errno FileTransferStatus.file_open_error) (attempt (source.open_input w)))
  opened w = by_outcome (source.open_input w) (laws.open_law w)
    where
      by_outcome :
          (m : Option ℕ × World)
          → (log m.1 ≡ log w) × (m.0 ≡ none → position m.1 ≡ 0)
          → Then
              (λ u w'. (position w' ≡ 0) × (log w' ≡ log w))
              (map_err (with_errno FileTransferStatus.file_open_error) (attempt m))
      by_outcome (none, w1) (kept, start) = (start refl, kept)
      by_outcome (some e, w1) h = refl

  blocks_read :
      (w : World)
      → Then
          (λ blocks w'. (file_of blocks ≡ content) × (log w' ≡ log w))
          (map_err (with_errno FileTransferStatus.file_read_error) (source.read_blocks w))
  blocks_read w = by_outcome (source.read_blocks w) (laws.blocks_law w)
    where
      by_outcome :
          (m : Outcome ℕ (List (List ℕ)) × World)
          → (log m.1 ≡ log w)
            × ((blocks : List (List ℕ)) → m.0 ≡ ok blocks → file_of blocks ≡ content)
          → Then
              (λ blocks w'. (file_of blocks ≡ content) × (log w' ≡ log w))
              (map_err (with_errno FileTransferStatus.file_read_error) m)
      by_outcome (ok blocks, w1) (kept, all) = (all blocks refl, kept)
      by_outcome (err e, w1) h = refl

  pub read_source_metadata-describes :
      (filename : List ℕ) (w : World)
      → Then
          (λ m w'. (m ≡ described filename) × (log w' ≡ log w))
          (read_source_metadata l source limits filename w)
  unfolding read_source_metadata
  read_source_metadata-describes filename w =
      let Goal = λ (m : UploadMetadata) (w' : World). (m ≡ described filename) × (log w' ≡ log w) in
      and_then l source laws limits (λ (n : ℕ) w'. (n ≡ length content) × (w' ≡ w)) Goal
        (map_err (with_errno FileTransferStatus.file_open_error) (source.file_size w, w)) _
        (sized w)
        (λ n w1 (size, same).
          and_then l source laws limits (λ (u : Unit {0}) w'. w' ≡ w1) Goal
            (check_source_size limits n, w1) _ (small_enough n w1)
            (λ u w2 same2.
              and_then l source laws limits
                (λ (u' : Unit {0}) w'. (position w' ≡ 0) × (log w' ≡ log w2)) Goal
                (map_err (with_errno FileTransferStatus.file_open_error)
                  (attempt (source.open_input w2)))
                _ (opened w2)
                (λ u' w3 (start, log3).
                  and_then l source laws limits
                    (λ (blocks : List (List ℕ)) w'. (file_of blocks ≡ content) × (log w' ≡ log w3))
                    Goal
                    (map_err (with_errno FileTransferStatus.file_read_error)
                      (source.read_blocks w3))
                    _ (blocks_read w3)
                    (λ blocks w4 (all, log4). (
                      λ i. record {
                        filename = filename;
                        file_size = size i;
                        checksum = (update_all-crc32 blocks ∙ ap crc32 all) i;
                      },
                      log4 ∙ log3 ∙ ap log (same2 ∙ same),
                    )))))

  -- The checkpoint and the transfer ID are those of the frame that has been received.
  abbrev pub Offered : ℕ → ℕ → Outcome FrameIoResult Frame → TransferReady × ℕ → Type 0
  Offered request_id size received (c, id) =
      (ready : Frame) × (received ≡ ok ready)
      × (ready.header.transfer_id ≡ id)
      × Offers request_id size ready c

  pub await_ready-checked :
      (request_id size : ℕ) (w : World)
      → Then
          (λ (c : TransferReady × ℕ) w'. (log w' ≡ log w) × Offered request_id size (receive w).0 c)
          (await_ready l source limits request_id size w)
  unfolding await_ready frame_error
  await_ready-checked request_id size w = elim (Outcome-cases (receive w).0) [
    | inr (io, r) ↦ rw (r, await_ready) refl
    | inl (frame, r) ↦
        rw (r, await_ready)
          (by_answer frame (check_ready request_id size frame)
            (check_ready-Answers request_id size frame))
  ]
    where
      by_answer :
          (frame : Frame) (o : Outcome FileTransferResult TransferReady)
          → Answers (Offers request_id size frame) o
          → Then
              (λ (c : TransferReady × ℕ) w'.
                (log w' ≡ log w) × Offered request_id size (ok frame) c)
              (then_do
                (o, (receive w).1)
                (λ (checkpoint : TransferReady) (w1 : World).
                  (ok (checkpoint, frame.header.transfer_id), w1)))
      by_answer frame (ok c) h = ((laws.receive_law w).1, (frame, refl, refl, h))
      by_answer frame (err r) h = h

  read_prefix-reads :
      (fuel rest done checksum : ℕ) (w : World)
      → 0 < limits.chunk_size
      → rest ≤ fuel
      → position w ≡ done
      → checksum ≡ update initial_state (take done content)
      → Then
          (λ c w'.
            (position w' ≡ done + rest)
            × (c ≡ update initial_state (take (done + rest) content))
            × (log w' ≡ log w))
          (read_prefix l source limits fuel rest checksum w)
  unfolding read_prefix
  read_prefix-reads zero rest done checksum w room enough here sum = (
    omega (arith, here),
    sum
        ∙ ap (λ (k : ℕ). update initial_state (take k content)) {x = done} {y = done + rest}
            (omega arith),
    refl,
  )
  read_prefix-reads (suc fuel) rest done checksum w room enough here sum =
      elim (Bool-cases (rest == 0)) [
        | inl none_ ↦
            rw (none_, read_prefix)
              (
                ground (arith, here),
                sum
                    ∙ ap (λ (k : ℕ). update initial_state (take k content)) {x = done}
                        {y = done + rest} (ground arith),
                refl,
              )
        | inr some_bytes ↦
            let requested = min rest limits.chunk_size in
            let piece = (source.read requested w).0 in
            let (kept, got) = laws.read_law requested w in
            elim (Bool-cases (length piece == requested)) [
              | inr short ↦ rw (some_bytes, read_prefix, short) refl
              | inl full ↦
                  let (same, moved) = got ((==_iff (length piece) requested).0 full) in
                  rw (some_bytes, read_prefix, full)
                    (weaken l source laws limits
                      (λ (c : ℕ) w'.
                        (position w' ≡ (done + requested) + (rest - requested))
                        × (c
                            ≡ update initial_state
                                (take ((done + requested) + (rest - requested)) content))
                        × (log w' ≡ log (source.read requested w).1))
                      (λ (c : ℕ) w'.
                        (position w' ≡ done + rest)
                        × (c ≡ update initial_state (take (done + rest) content))
                        × (log w' ≡ log w))
                      (read_prefix l source limits fuel (rest - requested) (update checksum piece)
                        (source.read requested w).1)
                      (read_prefix-reads fuel (rest - requested) (done + requested)
                        (update checksum piece) (source.read requested w).1 room (ground arith)
                        (omega (arith, moved, here))
                        (ap (λ (c : ℕ). update c piece) sum
                          ∙ ap (update (update initial_state (take done content)))
                              (same ∙ ap (λ (k : ℕ). take requested (drop k content)) here)
                          ∙ sym (
                              update-append initial_state (take done content)
                                (take requested (drop done content)))
                          ∙ ap (update initial_state) (take-drop-take done requested content)))
                      (λ c w' (p, s, lg). (
                        omega (arith, p),
                        s
                            ∙ ap (λ (k : ℕ). update initial_state (take k content))
                                {x = (done + requested) + (rest - requested)} {y = done + rest}
                                (omega arith),
                        lg ∙ kept,
                      )))
            ]
      ]

  -- Where an upload goes on from: the checkpoint, when the bytes before it have its checksum, and the
  -- start when they do not.
  abbrev pub Resumes : TransferReady → ℕ → Type 0
  Resumes checkpoint k =
      ((k ≡ 0) × (crc32 (take checkpoint.offset content) ≢ checkpoint.prefix_checksum))
      ⊎ ((k ≡ checkpoint.offset)
          × (crc32 (take checkpoint.offset content) ≡ checkpoint.prefix_checksum))

  abbrev pub Chosen : TransferReady → World → ℕ → World → Type 0
  Chosen checkpoint w k w' = (position w' ≡ k) × (log w' ≡ log w) × Resumes checkpoint k

  rewind_unless-Chosen :
      (checkpoint : TransferReady) (k : ℕ) (w : World)
      → Resumes checkpoint k
      → (k ≡ 0) ⊎ (position w ≡ k)
      → Then (Chosen checkpoint w) (rewind_unless l source limits k w)
  unfolding rewind_unless
  rewind_unless-Chosen checkpoint k w resumes here =
      let (kept, start) = laws.seek_law w in
      elim (Bool-cases (k == 0)) [
        | inr other ↦ rw (other, rewind_unless) (there other here, refl, resumes)
        | inl none_ ↦ elim (Bool-cases (source.seek_start w).0) [
          | inr bad ↦ rw (none_, rewind_unless, bad) refl
          | inl good ↦
              rw (none_, rewind_unless, good)
                (start good, kept, subst (Resumes checkpoint) ((==_iff k 0).0 none_) resumes)
        ]
      ]
    where
      there : (k == 0) ≡ false → (k ≡ 0) ⊎ (position w ≡ k) → position w ≡ k
      there other (inl none_) = absurd (ground (arith, other, none_))
      there other (inr p) = p

  pub choose_offset-Chosen :
      (checkpoint : TransferReady) (w : World)
      → 0 < limits.chunk_size
      → position w ≡ 0
      → Then (Chosen checkpoint w) (choose_offset l source limits checkpoint w)
  unfolding choose_offset crc32
  choose_offset-Chosen checkpoint w room start =
      and_then l source laws limits
        (λ (c : ℕ) w'.
          (position w' ≡ 0 + checkpoint.offset)
          × (c ≡ update initial_state (take (0 + checkpoint.offset) content))
          × (log w' ≡ log w))
        (Chosen checkpoint w)
        (read_prefix l source limits checkpoint.offset checkpoint.offset initial_state w) _
        (read_prefix-reads checkpoint.offset checkpoint.offset 0 initial_state w room (omega arith)
          start (unfold update in refl))
        (λ c w1 (here, sum, kept).
          let prefix_sum : crc32 (take checkpoint.offset content) ≡ value c =
            ap (λ (k : ℕ). value (update initial_state (take k content))) {x = checkpoint.offset}
              {y = 0 + checkpoint.offset} (omega arith)
            ∙ ap value (sym sum) in
          weaken l source laws limits (Chosen checkpoint w1) (Chosen checkpoint w) _
            (elim (Bool-cases (value c == checkpoint.prefix_checksum)) [
              | inr other ↦ rw other (
                  rewind_unless-Chosen checkpoint 0 w1
                    (inl (refl, λ e. ground (arith, other, e, prefix_sum))) (inl refl))
              | inl same ↦ rw same (
                  rewind_unless-Chosen checkpoint checkpoint.offset w1
                    (inr (refl, prefix_sum ∙ (==_iff _ _).0 same)) (inr (omega (arith, here))))
            ])
            (λ k w' (p, lg, r). (p, lg ∙ kept, r)))

  -- The end of an upload.
  pub conclude_upload-logs :
      (request_id transfer_id : ℕ) (metadata : UploadMetadata) (k offset : ℕ) (w : World)
      → Then
          (λ r w'.
            (log w' ≡ log w ++ (make_frame transfer_complete request_id transfer_id [] ∷ []))
            × (r.transferred ≡ offset)
            × (r.resumed_from ≡ k))
          (conclude_upload l source limits request_id transfer_id metadata k offset w)
  unfolding conclude_upload
  conclude_upload-logs request_id transfer_id metadata k offset w =
      let frame = make_frame transfer_complete request_id transfer_id [] in
      let Goal = λ (r : FileTransferResult) (w' : World).
        (log w' ≡ log w ++ (frame ∷ [])) × (r.transferred ≡ offset) × (r.resumed_from ≡ k) in
      and_then l source laws limits
        (λ (u : Unit {0}) w'. (position w' ≡ position w) × (log w' ≡ log w ++ (frame ∷ []))) Goal
        (send_or_fail l source limits frame w) _ (send_or_fail-logs l source laws limits frame w)
        (λ u w1 (p1, l1).
          and_then l source laws limits
            (λ (f : Frame) w'. (position w' ≡ position w1) × (log w' ≡ log w1)) Goal
            (receive_expected_frame l transfer_result request_id transfer_id w1) _
            (receive_expected_frame-keeps l source laws limits transfer_result request_id
              transfer_id w1)
            (λ f w2 (p2, l2). (l2 ∙ l1, refl, refl)))
