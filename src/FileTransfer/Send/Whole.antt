-- ===== src/FileTransfer/Send/Whole.antt =====
-- send_file of src/common/file_transfer.cpp, as a whole.
use syncwire.Common.{
  ℕ, ◌≤◌, ◌<◌, ◌≡◌, ap, sym, subst, ◌∙◌, true, List, [], ◌∷◌, ◌++◌, length, drop, All, Outcome, ok,
  err, handle, attempt, map_err, arith, inl, inr,
}
use mathlib.Core.List.{append_assoc}
use syncwire.Protocol.{Frame, upload_request, transfer_complete}
use syncwire.Crc32.{file_of}
use syncwire.TransferCodec.{UploadMetadata, TransferReady, encode_upload_metadata}
use syncwire.Link.{Link}
use syncwire.FileTransfer.{
  TransferLimits, FileTransferStatus, FileTransferResult, with_errno, transfer_ok, make_frame,
}
use syncwire.FileTransfer.Send.{
  Source, check_upload, read_source_metadata, send_or_fail, await_ready, choose_offset, send_chunks,
  conclude_upload, upload, run_upload, send_file,
}
use syncwire.FileTransfer.Send.Checks.{check_upload-Answers}
use syncwire.FileTransfer.Send.Sent.{
  SourceLaws, chunk_frames, at_end, send_or_fail-state, and_then, checking, weaken,
  send_or_fail-logs, Chunks, send_chunks-Chunks,
}
use syncwire.FileTransfer.Send.Steps.{
  described, Then, Offered, Resumes, Chosen, opened, read_source_metadata-describes,
  await_ready-checked, choose_offset-Chosen, conclude_upload-logs,
}

module _ (l : Link) (source : Source l.World) (laws : SourceLaws l source)
    (limits : TransferLimits) where
  open l use {World, send, receive}
  open laws use {content, position, log}

  -- The frames after the request, from the checkpoint's use to the end.
  record Finished (request_id transfer_id : ℕ) (checkpoint : TransferReady) (w : World)
      (r : FileTransferResult) (w' : World) : Type 0 where
    chunks : List (List ℕ)
    resumed : Resumes l source laws limits checkpoint r.resumed_from
    whole : file_of chunks ≡ drop r.resumed_from content
    cut : All (λ (p : List ℕ). (0 < length p) × (length p ≤ limits.chunk_size)) chunks
    everything : r.transferred ≡ length content
    logged :
        log w'
        ≡ log w
          ++ (chunk_frames request_id transfer_id r.resumed_from chunks
              ++ (make_frame transfer_complete request_id transfer_id [] ∷ []))

  -- The request for the whole source, and the state in which it has been sent.
  abbrev pub request_for : List ℕ → ℕ → Frame
  request_for filename request_id =
      make_frame upload_request request_id 0
        (encode_upload_metadata (described l source laws limits filename))

  abbrev pub requested : List ℕ → ℕ → World → World
  requested filename request_id w =
      (send (request_for filename request_id) (read_source_metadata l source limits filename w).1).1

  -- What a successful upload has put on the wire: the request for the whole source, the source's bytes
  -- from resumed_from on in chunks of at most chunk_size bytes, each at its offset, and the end.
  pub record Uploaded (filename : List ℕ) (request_id : ℕ) (w : World) (r : FileTransferResult)
      (w' : World) : Type 0 where
    pub checkpoint : TransferReady
    pub transfer_id : ℕ
    pub pieces : List (List ℕ)
    pub offered :
        Offered l source laws limits request_id
          (length content)
          (receive (requested filename request_id w)).0
          (checkpoint, transfer_id)
    pub resumes : Resumes l source laws limits checkpoint r.resumed_from
    pub complete : file_of pieces ≡ drop r.resumed_from content
    pub pieces_fit : All (λ (p : List ℕ). (0 < length p) × (length p ≤ limits.chunk_size)) pieces
    pub all_transferred : r.transferred ≡ length content
    pub on_log :
        log w'
        ≡ log w
          ++ (request_for filename request_id
              ∷ (chunk_frames request_id transfer_id r.resumed_from pieces
                  ++ (make_frame transfer_complete request_id transfer_id [] ∷ [])))

  in_source :
      (checkpoint : TransferReady) (k : ℕ)
      → checkpoint.offset ≤ length content
      → Resumes l source laws limits checkpoint k
      → k ≤ length content
  in_source checkpoint k below (inl (none_, other)) = omega arith
  in_source checkpoint k below (inr (same, sum)) = omega arith

  upload-Finished :
      (request_id : ℕ) (filename : List ℕ) (metadata : UploadMetadata) (checkpoint : TransferReady)
      (transfer_id : ℕ) (w : World)
      → metadata ≡ described l source laws limits filename
      → 0 < limits.chunk_size
      → checkpoint.offset ≤ length content
      → Then l source laws limits
          (Finished request_id transfer_id checkpoint w)
          (upload l source limits request_id metadata (checkpoint, transfer_id) w)
  unfolding upload
  upload-Finished request_id filename metadata checkpoint transfer_id w same room below =
      let Goal = Finished request_id transfer_id checkpoint w in
      and_then l source laws limits (λ (u : Unit {0}) w'. (position w' ≡ 0) × (log w' ≡ log w)) Goal
        (map_err (with_errno FileTransferStatus.file_open_error) (attempt (source.open_input w))) _
        (opened l source laws limits w)
        (λ u w1 (start, log1).
          and_then l source laws limits (Chosen l source laws limits checkpoint w1) Goal
            (choose_offset l source limits checkpoint w1) _
            (choose_offset-Chosen l source laws limits checkpoint w1 room start)
            (λ k w2 (here, log2, resumes).
              and_then l source laws limits
                (Chunks l source laws limits request_id transfer_id k w2) Goal
                (send_chunks l source limits metadata.file_size request_id transfer_id
                  metadata.file_size k w2)
                _
                (subst
                  (λ (n : ℕ).
                    Then l source laws limits
                      (Chunks l source laws limits request_id transfer_id k w2)
                      (send_chunks l source limits n request_id transfer_id n k w2))
                  (sym (ap (λ (m : UploadMetadata). m.file_size) same))
                  (send_chunks-Chunks l source laws limits (length content) request_id transfer_id k
                    w2 room (in_source checkpoint k below resumes) (omega arith) here))
                (λ offset w3 (pieces, whole, fine, ended, log3).
                  weaken l source laws limits
                    (λ (r : FileTransferResult) w'.
                      (log w'
                        ≡ log w3 ++ (make_frame transfer_complete request_id transfer_id [] ∷ []))
                      × (r.transferred ≡ offset)
                      × (r.resumed_from ≡ k))
                    Goal
                    (conclude_upload l source limits request_id transfer_id metadata k offset w3)
                    (conclude_upload-logs l source laws limits request_id transfer_id metadata k
                      offset w3)
                    (λ r w4 (log4, all, from). record {
                      chunks = pieces;
                      resumed = subst (Resumes l source laws limits checkpoint) (sym from) resumes;
                      whole = whole ∙ ap (λ (n : ℕ). drop n content) (sym from);
                      cut = fine;
                      everything = all ∙ ended;
                      logged =
                          log4
                          ∙ ap
                              (λ (fs : List Frame).
                                fs ++ (make_frame transfer_complete request_id transfer_id [] ∷ []))
                              (log3
                                ∙ ap
                                    (λ (fs : List Frame).
                                      fs ++ chunk_frames request_id transfer_id k pieces)
                                    (log2 ∙ log1))
                          ∙ append_assoc (log w) (chunk_frames request_id transfer_id k pieces)
                              (make_frame transfer_complete request_id transfer_id [] ∷ [])
                          ∙ ap
                              (λ (n : ℕ).
                                log w
                                ++ (chunk_frames request_id transfer_id n pieces
                                    ++ (make_frame transfer_complete request_id transfer_id []
                                        ∷ [])))
                              (sym from);
                    }))))

  run_upload-Uploaded :
      (filename : List ℕ) (request_id : ℕ) (w : World)
      → Then l source laws limits
          (Uploaded filename request_id w)
          (run_upload l source limits filename request_id w)
  unfolding run_upload
  run_upload-Uploaded filename request_id w =
      let Goal = Uploaded filename request_id w in
      let request =
        λ (m : UploadMetadata). make_frame upload_request request_id 0 (encode_upload_metadata m) in
      and_then l source laws limits (λ (u : Unit {0}) w'. (0 < limits.chunk_size) × (w' ≡ w)) Goal
        (check_upload limits filename request_id, w) _
        (checking l source laws limits (λ (u : Unit {0}). 0 < limits.chunk_size)
          (check_upload limits filename request_id) w
          (check_upload-Answers limits filename request_id))
        (λ u w1 (room, same1).
          let Read = λ (m : UploadMetadata) (w' : World).
            (m ≡ described l source laws limits filename) × (log w' ≡ log w1) in
          let read = read_source_metadata l source limits filename w1 in
          and_then l source laws limits (λ (m : UploadMetadata) w'. (w' ≡ read.1) × Read m w') Goal
            read _
            (at_end l source laws limits Read read
              (read_source_metadata-describes l source laws limits filename w1))
            (λ m w2 (at2, (same, log2)).
              let Asked = λ (u' : Unit {0}) (w' : World).
                (position w' ≡ position w2) × (log w' ≡ log w2 ++ (request m ∷ [])) in
              let asked = send_or_fail l source limits (request m) w2 in
              and_then l source laws limits (λ (u' : Unit {0}) w'. (w' ≡ asked.1) × Asked u' w')
                Goal asked _
                (at_end l source laws limits Asked asked
                  (send_or_fail-logs l source laws limits (request m) w2))
                (λ u' w3 (at3, (p3, log3)).
                  and_then l source laws limits
                    (λ (c : TransferReady × ℕ) w'.
                      (log w' ≡ log w3)
                      × Offered l source laws limits request_id m.file_size (receive w3).0 c)
                    Goal (await_ready l source limits request_id m.file_size w3) _
                    (await_ready-checked l source laws limits request_id m.file_size w3)
                    (λ (c, id) w4 (log4, (ready, got, own, (type, request_own, decodes, below))).
                      weaken l source laws limits (Finished request_id id c w4) Goal
                        (upload l source limits request_id m (c, id) w4)
                        (upload-Finished request_id filename m c id w4 same room (
                          subst (λ (n : ℕ). c.offset ≤ n)
                            (ap (λ (x : UploadMetadata). x.file_size) same) below))
                        (λ r w5 f. record {
                          checkpoint = c;
                          transfer_id = id;
                          pieces = f.chunks;
                          offered = (
                            ready,
                            subst (λ (x : World). (receive x).0 ≡ ok ready)
                                (at3
                                  ∙ send_or_fail-state l source laws limits (request m) w2
                                  ∙ (λ i.
                                      (send (request (same i)) (
                                        (at2
                                            ∙ ap
                                                (λ (x : World).
                                                  (read_source_metadata l source limits filename
                                                    x).1)
                                                same1)
                                          i)).1))
                                got,
                            own,
                            (
                              type,
                              request_own,
                              decodes,
                              subst (λ (n : ℕ). c.offset ≤ n)
                                  (ap (λ (x : UploadMetadata). x.file_size) same) below,
                            ),
                          );
                          resumes = f.resumed;
                          complete = f.whole;
                          pieces_fit = f.cut;
                          all_transferred = f.everything;
                          on_log =
                              f.logged
                              ∙ ap
                                  (λ (fs : List Frame).
                                    fs
                                    ++ (chunk_frames request_id id r.resumed_from f.chunks
                                        ++ (make_frame transfer_complete request_id id [] ∷ [])))
                                  (log4
                                    ∙ log3
                                    ∙ ap (λ (fs : List Frame). fs ++ (request m ∷ []))
                                        (log2 ∙ ap log same1)
                                    ∙ ap (λ (x : UploadMetadata). log w ++ (request x ∷ [])) same)
                              ∙ append_assoc (log w)
                                  (request (described l source laws limits filename) ∷ []) _;
                        })))))

  -- When send_file succeeds on a source that stays as it is, over a connection that takes the frames in
  -- order, it has sent exactly: the request with the source's length and CRC-32, the source's bytes from
  -- resumed_from on as chunks of 1 to chunk_size bytes, each with its offset, and TransferComplete.
  -- The frame received next after the request was a TransferReady for it, with a checkpoint within the
  -- source and the transfer ID of the chunks; resumed_from is the checkpoint's offset when the source's
  -- bytes before it have the checkpoint's CRC-32, and 0 when they have not; `transferred` is the
  -- source's length.
  pub send_file-Uploaded :
      (filename : List ℕ) (request_id : ℕ) (w : World)
      → transfer_ok (send_file l source limits filename request_id w).0.status ≡ true
      → Uploaded filename request_id w
          (send_file l source limits filename request_id w).0
          (send_file l source limits filename request_id w).1
  unfolding send_file
  send_file-Uploaded filename request_id w =
      by_outcome (run_upload l source limits filename request_id w)
        (run_upload-Uploaded filename request_id w)
    where
      by_outcome :
          (m : Outcome FileTransferResult FileTransferResult × World)
          → Then l source laws limits (Uploaded filename request_id w) m
          → transfer_ok (handle m (λ r w1. (r, w1)) (λ r w1. (r, w1))).0.status ≡ true
          → Uploaded filename request_id w
              (handle m (λ r w1. (r, w1)) (λ r w1. (r, w1))).0
              (handle m (λ r w1. (r, w1)) (λ r w1. (r, w1))).1
      by_outcome (ok r, w1) h e = h
      by_outcome (err r, w1) h e = cc (h, e)
