-- ===== src/FileTransfer/Termination.antt =====
-- receive_file of src/common/file_transfer.cpp: the rounds that its loop can take.
use syncwire.Common.{
  ℕ, zero, suc, ◌+◌, ◌-◌, ◌*◌, ◌≤◌, ◌<◌, ◌≡◌, ◌≢◌, ◌⊎◌, inl, inr, refl, sym, subst, sym, subst,
  true, false, List, none, some, not, ◌&&◌, ◌==◌, if◌then◌else◌, length, length-drop, Outcome, ok,
  err, then_do, attempt, map_err, Ensures, arith, Bool-cases, Outcome-cases,
}
use syncwire.Protocol.{Frame}
use syncwire.TransferCodec.{FileChunk, decode_file_chunk, chunk_offset_size}
use syncwire.Crc32.{initial_state}
use syncwire.FileTransfer.Writing.{write_all}
use syncwire.Link.{Link}
use syncwire.FileTransfer.{TransferLimits, FileTransferStatus}
use syncwire.FileTransfer.Files.{FileSystem, FileView, FileLaws}
use syncwire.FileTransfer.Receive.{
  Progress, OpenTransfer, Stop, rejected, file_error, check_chunk, check_range,
}
use syncwire.FileTransfer.Store.{
  receive_chunk, restart, sync_part, acknowledge, advance, store_chunk, round, loop_next,
  receive_loop,
}

-- What is left of a file of `file_size` bytes, and once more the whole of it while a restart may come.
abbrev pub measure : ℕ → Progress → ℕ
measure file_size progress =
    (file_size - progress.offset) + (if progress.first_chunk then suc file_size else 0)

-- What holds of the value of a step that does not stop.
abbrev Yields : {A W : Type 0} → (A → Type 0) → Outcome Stop A × W → Type 0
Yields P m = Ensures (λ a w. P a) (λ e w. Unit {0}) m

when_ok :
    {A W : Type 0} (P : A → Type 0) (m : Outcome Stop A × W)
    → ((a : A) → m.0 ≡ ok a → P a)
    → Yields P m
when_ok P (ok a, w) h = h a refl
when_ok P (err e, w) h = tt

and_then :
    {A B W : Type 0} (P : A → Type 0) (R : B → Type 0) (m : Outcome Stop A × W)
    (f : A → W → Outcome Stop B × W)
    → Yields P m
    → ((a : A) (w : W) → P a → Yields R (f a w))
    → Yields R (then_do m f)
and_then P R (ok a, w) f h k = k a w h
and_then P R (err e, w) f h k = tt

weaken :
    {A W : Type 0} (P Q : A → Type 0) (m : Outcome Stop A × W)
    → Yields P m
    → ((a : A) → P a → Q a)
    → Yields Q m
weaken P Q (ok a, w) h k = k a h
weaken P Q (err e, w) h k = tt

whatever :
    {A B W : Type 0} (R : B → Type 0) (m : Outcome Stop A × W) (f : A → W → Outcome Stop B × W)
    → ((a : A) (w : W) → Yields R (f a w))
    → Yields R (then_do m f)
whatever R (ok a, w) f k = k a w
whatever R (err e, w) f k = tt

decode_file_chunk-nonempty :
    (payload : List ℕ) (c : FileChunk) → decode_file_chunk payload ≡ ok c → 0 < length c.bytes
unfolding decode_file_chunk
decode_file_chunk-nonempty payload c e = ground (arith, length-drop chunk_offset_size payload)

check_chunk-nonempty :
    (request_id : ℕ) (progress : Progress) (frame : Frame) (c : FileChunk)
    → check_chunk request_id progress frame ≡ ok c
    → 0 < length c.bytes
unfolding check_chunk
check_chunk-nonempty request_id progress frame c e =
    elim (Outcome-cases (decode_file_chunk frame.payload)) [
      | inl (c', d) ↦ ground (arith, decode_file_chunk-nonempty frame.payload c' d)
      | inr (n, d) ↦ ground arith
    ]

check_range-fits :
    (limits : TransferLimits) (file_size : ℕ) (chunk : FileChunk) (progress : Progress)
    (u : Unit {0})
    → check_range limits file_size chunk progress ≡ ok u
    → progress.offset + length chunk.bytes ≤ file_size
unfolding check_range
check_range-fits limits file_size chunk progress u e = ground arith

module _ (l : Link) {fs : FileSystem l.World} {v : FileView fs} (laws : FileLaws v)
    (limits : TransferLimits) (request_id : ℕ) (t : OpenTransfer fs.Fd) where
  open l use {World, send, receive}

  receive_chunk-nonempty :
      (progress : Progress) (w : World)
      → Yields (λ c. 0 < length c.bytes) (receive_chunk l laws limits request_id t progress w)
  unfolding receive_chunk
  receive_chunk-nonempty progress w =
      when_ok {W = World} (λ (c : FileChunk). 0 < length c.bytes)
        (receive_chunk l laws limits request_id t progress w)
        (λ c e. elim (Outcome-cases (receive w).0) [
          | inl (frame, r) ↦ check_chunk-nonempty request_id progress frame c (ground (arith, r, e))
          | inr (n, r) ↦ absurd (ground (arith, r, e))
        ])

  -- What a restart can do to the progress.
  abbrev Restarted : Progress → Progress → Type 0
  Restarted p p' = (p'.first_chunk ≡ false) × ((p'.offset ≡ p.offset) ⊎ (p.first_chunk ≡ true))

  restart-Restarted :
      (chunk : FileChunk) (p : Progress) (w : World)
      → Yields (Restarted p) (restart l laws limits request_id t chunk p w)
  unfolding restart
  restart-Restarted chunk p w =
      elim (Bool-cases (p.first_chunk && (not (p.offset == 0) && chunk.offset == 0))) [
        | inr on ↦ rw (on, restart) (refl, inl refl)
        | inl again ↦
            rw (again, restart)
              (whatever (Restarted p)
                (map_err (file_error FileTransferStatus.file_write_error)
                  (attempt (fs.ftruncate t.part_file w)))
                _
                (λ u w1.
                  whatever (Restarted p)
                    (map_err (file_error FileTransferStatus.file_write_error)
                      (attempt (fs.lseek_start t.part_file w1)))
                    (λ u' w2. (
                      ok (record {
                        offset = 0;
                        checksum = initial_state;
                        resumed_from = 0;
                        first_chunk = false;
                      }),
                      w2,
                    ))
                    (λ u' w2. (refl, inr (ground (arith, again))))))
      ]

  acknowledge-same :
      (p : Progress) (w : World) (p' : Progress)
      → (acknowledge l laws limits request_id t p w).0 ≡ ok p'
      → p' ≡ p
  unfolding acknowledge
  acknowledge-same p w p' e = ground arith

  abbrev Advances : FileChunk → Progress → Progress → Type 0
  Advances chunk p p' =
      (p'.offset ≡ p.offset + length chunk.bytes)
      × (p'.first_chunk ≡ p.first_chunk)
      × (p'.offset ≤ t.metadata.file_size)

  store_chunk-Advances :
      (chunk : FileChunk) (p : Progress) (w : World)
      → Yields (Advances chunk p) (store_chunk l laws limits request_id t chunk p w)
  unfolding store_chunk
  store_chunk-Advances chunk p w =
      and_then (λ (u : Unit {0}). p.offset + length chunk.bytes ≤ t.metadata.file_size)
        (Advances chunk p) (check_range limits t.metadata.file_size chunk p, w) _
        (when_ok {W = World}
          (λ (u : Unit {0}). p.offset + length chunk.bytes ≤ t.metadata.file_size)
          (check_range limits t.metadata.file_size chunk p, w)
          (check_range-fits limits t.metadata.file_size chunk p))
        (λ u w1 fits.
          whatever (Advances chunk p) (map_err rejected (write_all laws t.part_file chunk.bytes w1))
            _
            (λ u' w2.
              whatever (Advances chunk p) (sync_part l laws limits request_id t w2) _ (λ u'' w3.
                acknowledged (advance l laws limits request_id t chunk p) (refl, refl, fits) w3)))
    where
      acknowledged :
          (q : Progress)
          → Advances chunk p q
          → (w3 : World) → Yields (Advances chunk p) (acknowledge l laws limits request_id t q w3)
      acknowledged q h w3 =
          when_ok {W = World} (Advances chunk p) (acknowledge l laws limits request_id t q w3)
            (λ p' e. subst (Advances chunk p) (sym (acknowledge-same q w3 p' e)) h)

  abbrev Less : Progress → Progress → Type 0
  Less p p' = measure t.metadata.file_size p' < measure t.metadata.file_size p

  less_lem :
      (c : FileChunk) (p q p' : Progress)
      → 0 < length c.bytes
      → Restarted p q
      → Advances c q p'
      → Less p p'
  less_lem c p q p' some_bytes (later, inl same) (on, flag, fits) = ground arith
  less_lem c p q p' some_bytes (later, inr first) (on, flag, fits) = ground arith

  -- Every round that is not the last leaves less to do.
  round-Less : (p : Progress) (w : World) → Yields (Less p) (round l laws limits request_id t p w)
  unfolding round
  round-Less p w =
      and_then (λ (c : FileChunk). 0 < length c.bytes) (Less p)
        (receive_chunk l laws limits request_id t p w) _ (receive_chunk-nonempty p w)
        (λ c w1 some_bytes.
          and_then (Restarted p) (Less p) (restart l laws limits request_id t c p w1) _
            (restart-Restarted c p w1)
            (λ q w2 restarted.
              weaken (Advances c q) (Less p) (store_chunk l laws limits request_id t c q w2)
                (store_chunk-Advances c q w2)
                (λ p' advanced. less_lem c p q p' some_bytes restarted advanced)))

  receive_loop-returns :
      (fuel : ℕ) (p : Progress) (w : World)
      → measure t.metadata.file_size p < fuel
      → (r : Stop × World) × (receive_loop l laws limits request_id t fuel p w ≡ some r)
  unfolding receive_loop loop_next
  receive_loop-returns zero p w enough = absurd (omega arith)
  receive_loop-returns (suc fuel) p w enough =
      by_round (λ p' w' less. receive_loop-returns fuel p' w' (omega arith))
        (round l laws limits request_id t p w) (round-Less p w)
    where
      by_round :
          ((p' : Progress) (w' : World)
            → Less p p'
            → (r : Stop × World) × (receive_loop l laws limits request_id t fuel p' w' ≡ some r))
          → (m : Outcome Stop Progress × World) → Yields (Less p) m
          → (r : Stop × World) × (loop_next l laws limits request_id t
                (receive_loop l laws limits request_id t fuel)
                m
              ≡ some r)
      by_round ih (ok p', w') less = ih p' w' less
      by_round ih (err stop, w') less = ((stop, w'), refl)

  abbrev pub receive_fuel : ℕ
  receive_fuel = 2 * t.metadata.file_size + 2

  -- Whatever the peer sends and the calls answer, the loop of receive_file ends within 2 * n +
  -- 2 rounds for an upload of n bytes, from any progress: no round that goes on leaves as much
  -- to do as it found, restarts included.
  pub receive_loop-ne-none :
      (p : Progress) (w : World) → receive_loop l laws limits request_id t receive_fuel p w ≢ none
  receive_loop-ne-none p w e =
      let (r, returned) = receive_loop-returns receive_fuel p w (ground arith) in cc (e, returned)
