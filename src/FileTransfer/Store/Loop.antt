-- ===== src/FileTransfer/Store/Loop.antt =====
-- receive_file of src/common/file_transfer.cpp: its loop, in terms of the partial file.
use syncwire.Common.{
  ℕ, zero, suc, ◌≡◌, ap, sym, subst, ◌∙◌, some, length, length-append, Outcome, ok, err, attempt,
  map_err, Ensures, arith, Bool-cases, inl, inr,
}
use mathlib.Core.Option.{some-injective}
use syncwire.Protocol.{acknowledgment}
use syncwire.Crc32.{initial_state, update, update-append}
use syncwire.TransferCodec.{FileChunk, encode_offset}
use syncwire.FrameIo.{frame_io_ok}
use syncwire.Link.{Link}
use syncwire.FileTransfer.{
  TransferLimits, FileTransferStatus, FileTransferResult, transfer_ok, make_frame,
}
use syncwire.FileTransfer.Files.{FileSystem, FileView, FileLaws, OnlyFile}
use syncwire.FileTransfer.Writing.{Wrote, write_all, write_all-Ensures}
use syncwire.FileTransfer.Receive.{Progress, OpenTransfer, Stop, rejected, file_error, check_range}
use syncwire.FileTransfer.Store.{
  receive_chunk, restart, sync_part, acknowledge, advance, store_chunk, round, loop_next,
  receive_loop,
}
use syncwire.FileTransfer.Store.Holds.{
  LeavesFiles, Holds, IsStop, and_then, Same-Holds, IsChecked-Gives, receive_chunk-Holds, call,
  OnlyFile-IsMine, restart-Holds, check_range-IsChecked,
}

module _ (l : Link) {fs : FileSystem l.World} {v : FileView fs} (laws : FileLaws v)
    (leaves : LeavesFiles l v) (limits : TransferLimits) (request_id : ℕ) (t : OpenTransfer fs.Fd)
    (w0 : l.World) where
  open l use {World, send, receive}

  abbrev Held : Progress → World → Type 0
  Held p w = Holds l laws leaves limits request_id t w0 p w

  abbrev Next : {A : Type 0} → (A → World → Type 0) → Outcome Stop A × World → Type 0
  Next P m = Ensures P (IsStop l laws leaves limits request_id t w0) m

  sync-Held :
      (p : Progress) (fd : fs.Fd) (w : World)
      → Held p w
      → Next
          (λ u w'. Held p w')
          (map_err (file_error FileTransferStatus.file_write_error) (attempt (fs.fsync fd w)))
  sync-Held p fd w h =
      let h' = Same-Holds l laws leaves limits request_id t w0 p w _ h (laws.fsync_law fd w) in
      call l laws leaves limits request_id t w0 (Held p) (fs.fsync fd w) h'.mine (λ e. h')

  sync_part-Held :
      (p : Progress) (w : World)
      → Held p w
      → Next (λ u w'. Held p w') (sync_part l laws limits request_id t w)
  unfolding sync_part
  sync_part-Held p w h =
      and_then l laws leaves limits request_id t w0 (λ (u : Unit {0}) w'. Held p w')
        (λ (u : Unit {0}) w'. Held p w')
        (map_err (file_error FileTransferStatus.file_write_error)
          (attempt (fs.fsync t.part_file w)))
        _ (sync-Held p t.part_file w h) (λ u w1 h1. sync-Held p t.prepared.directory w1 h1)

  acknowledge-Held :
      (p : Progress) (w : World) → Held p w → Next Held (acknowledge l laws limits request_id t p w)
  unfolding acknowledge
  acknowledge-Held p w h =
      let frame = make_frame acknowledgment request_id request_id (encode_offset p.offset) in
      let h' =
        Same-Holds l laws leaves limits request_id t w0 p w (send frame w).1 h
          (leaves.send_law frame w) in
      elim (Bool-cases (frame_io_ok (send frame w).0.status)) [
        | inl fine ↦ rw (fine, acknowledge) h'
        | inr broken ↦ rw (broken, acknowledge) h'.mine
      ]

  write_all-Held :
      (chunk : FileChunk) (p : Progress) (w : World)
      → Held p w
      → Next
          (λ u w'. Held (advance l laws limits request_id t chunk p) w')
          (map_err rejected (write_all laws t.part_file chunk.bytes w))
  write_all-Held chunk p w h =
      by_outcome (write_all laws t.part_file chunk.bytes w)
        (write_all-Ensures laws t.part_file chunk.bytes w)
    where
      by_outcome :
          (m : Outcome FileTransferResult (Unit {0}) × World)
          → Ensures
              (λ u w'.
                OnlyFile v t.part_file w w'
                × (v.position t.part_file w ≡ length (v.bytes (v.inode t.part_file) w)
                    → Wrote laws t.part_file chunk.bytes w w'))
              (λ e w'.
                OnlyFile v t.part_file w w' × (e.status ≡ FileTransferStatus.file_write_error))
              m
          → Next (λ u w'. Held (advance l laws limits request_id t chunk p) w') (map_err rejected m)
      by_outcome (ok u, w') (only, wrote) =
          let wr = wrote (h.here ∙ sym h.whole) in
          record {
            mine = OnlyFile-IsMine l laws leaves limits request_id t w0 w w' h.mine only;
            whole = omega (
              arith,
              ap length wr.appended,
              length-append (v.bytes (v.inode t.part_file) w) chunk.bytes,
              h.whole,
            );
            here = omega (arith, wr.moved, h.here);
            summed =
                ap (λ (c : ℕ). update c chunk.bytes) h.summed
                ∙ sym (update-append initial_state (v.bytes (v.inode t.part_file) w) chunk.bytes)
                ∙ ap (update initial_state) (sym wr.appended);
          }
      by_outcome (err e, w') (only, bad) = (
        OnlyFile-IsMine l laws leaves limits request_id t w0 w w' h.mine only,
        ap transfer_ok bad,
      )

  store_chunk-Held :
      (chunk : FileChunk) (p : Progress) (w : World)
      → Held p w
      → Next Held (store_chunk l laws limits request_id t chunk p w)
  unfolding store_chunk
  store_chunk-Held chunk p w h =
      and_then l laws leaves limits request_id t w0 (λ (u : Unit {0}) w'. Held p w') Held
        (check_range limits t.metadata.file_size chunk p, w) _
        (IsChecked-Gives l laws leaves limits request_id t w0 p
          (check_range limits t.metadata.file_size chunk p) w h
          (check_range-IsChecked limits t.metadata.file_size chunk p))
        (λ u w1 h1.
          and_then l laws leaves limits request_id t w0
            (λ (u' : Unit {0}) w'. Held (advance l laws limits request_id t chunk p) w') Held
            (map_err rejected (write_all laws t.part_file chunk.bytes w1)) _
            (write_all-Held chunk p w1 h1)
            (λ u' w2 h2.
              and_then l laws leaves limits request_id t w0
                (λ (u'' : Unit {0}) w'. Held (advance l laws limits request_id t chunk p) w') Held
                (sync_part l laws limits request_id t w2) _
                (sync_part-Held (advance l laws limits request_id t chunk p) w2 h2)
                (λ u'' w3 h3. acknowledge-Held (advance l laws limits request_id t chunk p) w3 h3)))

  round-Held :
      (p : Progress) (w : World) → Held p w → Next Held (round l laws limits request_id t p w)
  unfolding round
  round-Held p w h =
      and_then l laws leaves limits request_id t w0 (λ (c : FileChunk) w'. Held p w') Held
        (receive_chunk l laws limits request_id t p w) _
        (receive_chunk-Holds l laws leaves limits request_id t w0 p w h)
        (λ c w1 h1.
          and_then l laws leaves limits request_id t w0 Held Held
            (restart l laws limits request_id t c p w1) _
            (restart-Holds l laws leaves limits request_id t w0 c p w1 h1)
            (λ q w2 h2. store_chunk-Held c q w2 h2))

  pub receive_loop-IsStop :
      (fuel : ℕ) (p : Progress) (w : World) (stop : Stop) (w' : World)
      → Held p w
      → receive_loop l laws limits request_id t fuel p w ≡ some (stop, w')
      → IsStop l laws leaves limits request_id t w0 stop w'
  unfolding receive_loop loop_next
  receive_loop-IsStop zero p w stop w' h e = cc e
  receive_loop-IsStop (suc fuel) p w stop w' h e =
      by_round (round l laws limits request_id t p w) (round-Held p w h) e
        (λ p1 w1 h1 e1. receive_loop-IsStop fuel p1 w1 stop w' h1 e1)
    where
      by_round :
          (m : Outcome Stop Progress × World)
          → Next Held m
          → loop_next l laws limits request_id t (receive_loop l laws limits request_id t fuel) m
            ≡ some (stop, w')
          → ((p1 : Progress) (w1 : World)
              → Held p1 w1
              → receive_loop l laws limits request_id t fuel p1 w1 ≡ some (stop, w')
              → IsStop l laws leaves limits request_id t w0 stop w')
          → IsStop l laws leaves limits request_id t w0 stop w'
      by_round (ok p1, w1) h1 e1 ih = ih p1 w1 h1 e1
      by_round (err s, w1) h1 e1 ih =
          subst (λ (x : Stop × World). IsStop l laws leaves limits request_id t w0 x.0 x.1)
            (some-injective _ _ e1) h1
