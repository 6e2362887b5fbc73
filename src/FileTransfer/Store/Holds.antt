-- ===== src/FileTransfer/Store/Holds.antt =====
-- receive_file of src/common/file_transfer.cpp: what its loop keeps of the files.
use syncwire.Common.{
  ℕ, ◌-◌, ◌≡◌, refl, ap, sym, subst, ◌∙◌, false, List, [], Option, none, some, not, ◌&&◌, ◌||◌, ltb,
  ◌==◌, length, Outcome, ok, err, then_do, attempt, map_err, Ensures, Ensures-then_do, Bool-cases,
  Outcome-cases, inl, inr,
}
use syncwire.Protocol.{Frame, type_eq, transfer_complete, file_chunk}
use syncwire.Crc32.{initial_state, update}
use syncwire.TransferCodec.{FileChunk, decode_file_chunk}
use syncwire.PingPong.{is_empty}
use syncwire.Link.{Link}
use syncwire.FileTransfer.{TransferLimits, FileTransferStatus, transfer_ok}
use syncwire.FileTransfer.Files.{FileSystem, FileView, FileLaws, Same, OnlyFile}
use syncwire.FileTransfer.Kept.{Mine, Same-Mine, OnlyFile-Mine}
use syncwire.FileTransfer.Receive.{
  Progress, OpenTransfer, Stop, rejected, interrupted, finished, file_error, check_chunk,
  check_range,
}
use syncwire.FileTransfer.Store.{receive_chunk, restart}

-- What a frame's check may answer in place of a chunk.
abbrev pub IsRefusal : Progress → Stop → Type 0
IsRefusal p (rejected r) = transfer_ok r.status ≡ false
IsRefusal p (interrupted io p') = Unit {0}
IsRefusal p (finished p') = p' ≡ p

abbrev pub IsChecked : {A : Type 0} → Progress → Outcome Stop A → Type 0
IsChecked p (ok a) = Unit {0}
IsChecked p (err stop) = IsRefusal p stop

pub check_chunk-IsChecked :
    (request_id : ℕ) (p : Progress) (frame : Frame) → IsChecked p (check_chunk request_id p frame)
unfolding check_chunk
check_chunk-IsChecked request_id p frame =
    elim (Bool-cases (
      not (frame.header.request_id == request_id)
      || not (frame.header.transfer_id == request_id))) [
        | inl other ↦ rw (other, check_chunk) refl
        | inr own ↦ elim (Bool-cases (type_eq frame.header.message_type transfer_complete)) [
          | inl complete ↦ elim (Bool-cases (is_empty frame.payload)) [
            | inl empty ↦ rw (own, check_chunk, complete, empty) refl
            | inr more ↦ rw (own, check_chunk, complete, more) refl
          ]
          | inr going ↦ elim (Bool-cases (type_eq frame.header.message_type file_chunk)) [
            | inr other ↦ rw (own, check_chunk, going, other) refl
            | inl chunk ↦ elim (Outcome-cases (decode_file_chunk frame.payload)) [
              | inl (c, d) ↦ rw (own, check_chunk, going, chunk, d) tt
              | inr (e, d) ↦ rw (own, check_chunk, going, chunk, d) refl
            ]
          ]
        ]
      ]

pub check_range-IsChecked :
    (limits : TransferLimits) (file_size : ℕ) (chunk : FileChunk) (p : Progress)
    → IsChecked p (check_range limits file_size chunk p)
unfolding check_range
check_range-IsChecked limits file_size chunk p = elim (Bool-cases (chunk.offset == p.offset)) [
  | inr other ↦ rw (other, check_range) refl
  | inl same ↦
      elim (Bool-cases (
        ltb limits.chunk_size (length chunk.bytes)
        || (ltb file_size p.offset || ltb (file_size - p.offset) (length chunk.bytes)))) [
          | inl large ↦ rw (same, check_range, large) refl
          | inr small ↦ rw (same, check_range, small) tt
        ]
]

-- The link's two operations change no file: nothing but this transfer is at work on them.
pub record LeavesFiles (l : Link) {fs : FileSystem l.World} (v : FileView fs) : Type 0 where
  pub send_law : (frame : Frame) (w : l.World) → Same v w (l.send frame w).1
  pub receive_law : (w : l.World) → Same v w (l.receive w).1

module _ (l : Link) {fs : FileSystem l.World} {v : FileView fs} (laws : FileLaws v)
    (leaves : LeavesFiles l v) (limits : TransferLimits) (request_id : ℕ) (t : OpenTransfer fs.Fd)
    (w0 : l.World) where
  open l use {World, send, receive}

  content : World → List ℕ
  content w = v.bytes (v.inode t.part_file) w

  abbrev pub IsMine : World → Type 0
  IsMine w = Mine v t.prepared.final_path t.prepared.part_path t.part_file w0 w

  -- The partial file holds `offset` bytes, the descriptor stands behind them, and the checksum is theirs.
  pub record Holds (p : Progress) (w : World) : Type 0 where
    pub mine : IsMine w
    pub whole : length (v.bytes (v.inode t.part_file) w) ≡ p.offset
    pub here : v.position t.part_file w ≡ p.offset
    pub summed : p.checksum ≡ update initial_state (v.bytes (v.inode t.part_file) w)

  -- What holds where the loop stops.
  abbrev pub IsStop : Stop → World → Type 0
  IsStop (rejected r) w = IsMine w × (transfer_ok r.status ≡ false)
  IsStop (interrupted io p) w = IsMine w
  IsStop (finished p) w = Holds p w

  abbrev pub Gives : {A : Type 0} → (A → World → Type 0) → Outcome Stop A × World → Type 0
  Gives P m = Ensures P IsStop m

  pub and_then :
      {A B : Type 0} (P : A → World → Type 0) (R : B → World → Type 0) (m : Outcome Stop A × World)
      (f : A → World → Outcome Stop B × World)
      → Gives P m
      → ((a : A) (w : World) → P a w → Gives R (f a w))
      → Gives R (then_do m f)
  and_then P R m f h k = Ensures-then_do P R IsStop m f h k

  pub Same-Holds : (p : Progress) (w w' : World) → Holds p w → Same v w w' → Holds p w'
  Same-Holds p w w' h same = record {
    mine = Same-Mine v t.prepared.final_path t.prepared.part_path t.part_file w0 w w' h.mine same;
    whole = ap length (same.same_bytes (v.inode t.part_file)) ∙ h.whole;
    here = same.same_position t.part_file ∙ h.here;
    summed = h.summed ∙ ap (update initial_state) (sym (same.same_bytes (v.inode t.part_file)));
  }

  pub IsChecked-Gives :
      {A : Type 0} (p : Progress) (o : Outcome Stop A) (w : World)
      → Holds p w
      → IsChecked p o
      → Gives (λ a w'. Holds p w') (o, w)
  IsChecked-Gives p (ok a) w h c = h
  IsChecked-Gives p (err (rejected r)) w h c = (h.mine, c)
  IsChecked-Gives p (err (interrupted io p')) w h c = h.mine
  IsChecked-Gives p (err (finished p')) w h c = subst (λ (q : Progress). Holds q w) (sym c) h

  pub receive_chunk-Holds :
      (p : Progress) (w : World)
      → Holds p w
      → Gives (λ c w'. Holds p w') (receive_chunk l laws limits request_id t p w)
  unfolding receive_chunk
  receive_chunk-Holds p w h =
      let h' = Same-Holds p w (receive w).1 h (leaves.receive_law w) in
      elim (Outcome-cases (receive w).0) [
        | inl (frame, r) ↦
            rw (r, receive_chunk)
              (IsChecked-Gives p (check_chunk request_id p frame) (receive w).1 h'
                (check_chunk-IsChecked request_id p frame))
        | inr (io, r) ↦ rw (r, receive_chunk) h'.mine
      ]

  -- A call that only this file feels, where its failure rejects the transfer.
  pub call :
      (P : World → Type 0) (m : Option ℕ × World)
      → IsMine m.1
      → (m.0 ≡ none → P m.1)
      → Gives (λ u w'. P w') (map_err (file_error FileTransferStatus.file_write_error) (attempt m))
  call P (none, w) mine p = p refl
  call P (some e, w) mine p = (mine, refl)

  pub OnlyFile-IsMine : (w w' : World) → IsMine w → OnlyFile v t.part_file w w' → IsMine w'
  OnlyFile-IsMine w w' =
      OnlyFile-Mine v t.prepared.final_path t.prepared.part_path t.part_file w0 w w'

  pub restart-Holds :
      (chunk : FileChunk) (p : Progress) (w : World)
      → Holds p w
      → Gives Holds (restart l laws limits request_id t chunk p w)
  unfolding restart
  restart-Holds chunk p w h =
      elim (Bool-cases (p.first_chunk && (not (p.offset == 0) && chunk.offset == 0))) [
        | inr on ↦
            rw (on, restart)
              (record { mine = h.mine; whole = h.whole; here = h.here; summed = h.summed })
        | inl again ↦
            let (only, still, emptied) = laws.ftruncate_law t.part_file w in
            rw (again, restart)
              (and_then (λ (u : Unit {0}) w'. IsMine w' × (v.bytes (v.inode t.part_file) w' ≡ []))
                Holds
                (map_err (file_error FileTransferStatus.file_write_error)
                  (attempt (fs.ftruncate t.part_file w)))
                _
                (call (λ w'. IsMine w' × (v.bytes (v.inode t.part_file) w' ≡ []))
                  (fs.ftruncate t.part_file w) (OnlyFile-IsMine w _ h.mine only)
                  (λ e. (OnlyFile-IsMine w _ h.mine only, emptied e)))
                (λ u w1 (mine, empty).
                  let (only', kept, rewound) = laws.lseek_law t.part_file w1 in
                  let fresh : Progress = record {
                    offset = 0;
                    checksum = initial_state;
                    resumed_from = 0;
                    first_chunk = false;
                  } in
                  and_then (λ (u : Unit {0}) w'. Holds fresh w') Holds
                    (map_err (file_error FileTransferStatus.file_write_error)
                      (attempt (fs.lseek_start t.part_file w1)))
                    (λ u' w2. (ok fresh, w2))
                    (call (Holds fresh) (fs.lseek_start t.part_file w1)
                      (OnlyFile-IsMine w1 _ mine only')
                      (λ e. record {
                        mine = OnlyFile-IsMine w1 _ mine only';
                        whole = ap length (kept ∙ empty);
                        here = rewound e;
                        summed = unfold update in ap (update initial_state) (sym (kept ∙ empty));
                      }))
                    (λ u' w2 h2. h2)))
      ]
