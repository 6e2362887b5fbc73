-- ===== src/FileTransfer/Writing.antt =====
-- write_all of src/common/file_transfer.cpp, in terms of the file behind the descriptor.
use syncwire.Common.{
  ℕ, zero, suc, ◌+◌, ◌-◌, ◌≤◌, ◌<◌, ◌≡◌, ◌≢◌, refl, ap, sym, subst, ◌∙◌, List, ◌++◌, Option, none,
  some, ltb, length, take, drop, arith, Bool-cases, inl, inr, get_some, get_some-eq, Outcome, ok,
  err, Ensures, take_all, drop_all, take-drop-take, length-drop, length-append, length-take,
}
use mathlib.Core.List.{append_assoc, append-nil}
use syncwire.SocketIo.{Sent, sent_some, sent_zero, sent_interrupted, sent_error}
use syncwire.FileTransfer.{FileTransferStatus, FileTransferResult}
use syncwire.FileTransfer.Files.{FileSystem, FileView, FileLaws, OnlyFile, WriteWell}
use syncwire.FileTransfer.Kept.{OnlyFile-refl, OnlyFile-trans, Same-OnlyFile}
use syncwire.FileTransfer.Blocks.{write_loop, write_next}

module _ {World : Type 0} {fs : FileSystem World} {v : FileView fs} (laws : FileLaws v) where
  -- The block stands behind what the file held, and the position behind the block.
  pub record Wrote (fd : fs.Fd) (block : List ℕ) (w w' : World) : Type 0 where
    pub appended : v.bytes (v.inode fd) w' ≡ v.bytes (v.inode fd) w ++ block
    pub moved : v.position fd w' ≡ v.position fd w + length block

  at_end :
      (old block : List ℕ) (written n p : ℕ)
      → p ≡ length (old ++ take written block)
      → take p (old ++ take written block)
          ++ (take n (drop written block) ++ drop (p + n) (old ++ take written block))
        ≡ old ++ take (written + n) block
  at_end old block written n p e =
      ap
        (λ (l : List ℕ).
          l ++ (take n (drop written block) ++ drop (p + n) (old ++ take written block)))
        (take_all p (old ++ take written block) (omega arith))
      ∙ ap (λ (l : List ℕ). (old ++ take written block) ++ (take n (drop written block) ++ l))
          (drop_all (p + n) _ (omega arith))
      ∙ ap (λ (l : List ℕ). (old ++ take written block) ++ l)
          (append-nil (take n (drop written block)))
      ∙ append_assoc old (take written block) (take n (drop written block))
      ∙ ap (◌++◌ old) (take-drop-take written n block)

  -- `written` bytes of the block stand behind what the file held in `w0`.
  record Partly (fd : fs.Fd) (block : List ℕ) (w0 : World) (written : ℕ) (w : World) : Type 0 where
    only : OnlyFile v fd w0 w
    so_far :
        v.position fd w0 ≡ length (v.bytes (v.inode fd) w0)
        → v.bytes (v.inode fd) w ≡ v.bytes (v.inode fd) w0 ++ take written block
    here : v.position fd w ≡ v.position fd w0 + written

  abbrev Writes :
      fs.Fd → List ℕ → World → Option (Outcome FileTransferResult (Unit {0}) × World) → Type 0
  Writes fd block w0 o =
      (r : Outcome FileTransferResult (Unit {0}) × World) × (o ≡ some r)
      × Ensures
          (λ u w'.
            OnlyFile v fd w0 w'
            × (v.position fd w0 ≡ length (v.bytes (v.inode fd) w0) → Wrote fd block w0 w'))
          (λ e w'. OnlyFile v fd w0 w' × (e.status ≡ FileTransferStatus.file_write_error)) r

  write_next-Writes :
      (again : ℕ → World → Option (Outcome FileTransferResult (Unit {0}) × World)) (fd : fs.Fd)
      (block : List ℕ) (w0 w : World) (written : ℕ) (answer : Sent) (w1 : World)
      → ((written' : ℕ) (w' : World)
          → Partly fd block w0 written' w'
          → written' ≤ length block
          → v.signals w' + (length block - written') < v.signals w + (length block - written)
          → Writes fd block w0 (again written' w'))
      → Partly fd block w0 written w
      → written < length block
      → WriteWell v fd (drop written block) answer w w1
      → Writes fd block w0 (write_next fs again written answer w1)
  unfolding write_next
  write_next-Writes again fd block w0 w written (sent_some n) w1 ih h more
        (some_sent, most, new, moved, only) =
      ih (written + n) w1
        (record {
          only = OnlyFile-trans v fd w0 w w1 h.only only;
          so_far = λ start.
              new
              ∙ ap
                  (λ (l : List ℕ).
                    take (v.position fd w) l
                    ++ (take n (drop written block) ++ drop (v.position fd w + n) l))
                  (h.so_far start)
              ∙ at_end (v.bytes (v.inode fd) w0) block written n (v.position fd w) (
                  omega (
                    arith,
                    h.here,
                    start,
                    length-append (v.bytes (v.inode fd) w0) (take written block),
                    length-take written block,
                  ));
          here = omega (arith, moved, h.here);
        })
        (omega (arith, length-drop written block))
        (omega (arith, length-drop written block, only.quieter))
  write_next-Writes again fd block w0 w written sent_zero w1 ih h more same =
      (_, refl, (OnlyFile-trans v fd w0 w w1 h.only (Same-OnlyFile v fd w w1 same), refl))
  write_next-Writes again fd block w0 w written sent_interrupted w1 ih h more (same, fewer) =
      ih written w1
        (record {
          only = OnlyFile-trans v fd w0 w w1 h.only (Same-OnlyFile v fd w w1 same);
          so_far = λ start. same.same_bytes (v.inode fd) ∙ h.so_far start;
          here = same.same_position fd ∙ h.here;
        })
        (omega arith) (omega arith)
  write_next-Writes again fd block w0 w written (sent_error e) w1 ih h more same =
      (_, refl, (OnlyFile-trans v fd w0 w w1 h.only (Same-OnlyFile v fd w w1 same), refl))

  write_loop-Writes :
      (fuel : ℕ) (fd : fs.Fd) (block : List ℕ) (w0 w : World) (written : ℕ)
      → Partly fd block w0 written w
      → written ≤ length block
      → v.signals w + (length block - written) < fuel
      → Writes fd block w0 (write_loop fs fuel fd block written w)
  unfolding write_loop
  write_loop-Writes zero fd block w0 w written h within enough = absurd (omega arith)
  write_loop-Writes (suc fuel) fd block w0 w written h within enough =
      elim (Bool-cases (ltb written (length block))) [
        | inl more ↦
            rw (more, write_loop)
              (write_next-Writes (write_loop fs fuel fd block) fd block w0 w written _ _
                (λ written' w' h' within' less.
                  write_loop-Writes fuel fd block w0 w' written' h' within' (omega arith))
                h (ground arith) (laws.write_law fd (drop written block) w))
        | inr done ↦
            rw (done, write_loop)
              (
                _,
                refl,
                (
                  h.only,
                  λ start. record {
                    appended =
                        h.so_far start
                        ∙ ap (◌++◌ (v.bytes (v.inode fd) w0))
                            (take_all written block (ground arith));
                    moved = ground (arith, h.here);
                  },
                ),
              )
      ]

  abbrev pub write_fuel : List ℕ → World → ℕ
  write_fuel block w = suc (v.signals w + length block)

  write_loop-ends :
      (fd : fs.Fd) (block : List ℕ) (w : World)
      → Writes fd block w (write_loop fs (write_fuel block w) fd block 0 w)
  write_loop-ends fd block w =
      write_loop-Writes (write_fuel block w) fd block w w 0
        (record {
          only = OnlyFile-refl v fd w;
          so_far = λ start. sym (append-nil (v.bytes (v.inode fd) w));
          here = omega arith;
        })
        (omega arith) (omega arith)

  pub write_loop-ne-none :
      (fd : fs.Fd) (block : List ℕ) (w : World)
      → write_loop fs (write_fuel block w) fd block 0 w ≢ none
  write_loop-ne-none fd block w e =
      let (r, returned, _) = write_loop-ends fd block w in cc (e, returned)

  -- write_all, with fuel for every signal to come and every byte to go.
  unfoldable pub write_all : fs.Fd → List ℕ → World → Outcome FileTransferResult (Unit {0}) × World
  unfolding write_loop
  write_all fd block w =
      get_some (write_loop fs (write_fuel block w) fd block 0 w) (write_loop-ne-none fd block w)

  pub write_all-Ensures :
      (fd : fs.Fd) (block : List ℕ) (w : World)
      → Ensures
          (λ u w'.
            OnlyFile v fd w w'
            × (v.position fd w ≡ length (v.bytes (v.inode fd) w) → Wrote fd block w w'))
          (λ e w'. OnlyFile v fd w w' × (e.status ≡ FileTransferStatus.file_write_error))
          (write_all fd block w)
  unfolding write_all
  write_all-Ensures fd block w =
      let (r, returned, h) = write_loop-ends fd block w in
      subst
        (λ (x : Outcome FileTransferResult (Unit {0}) × World).
          Ensures
            (λ u w'.
              OnlyFile v fd w w'
              × (v.position fd w ≡ length (v.bytes (v.inode fd) w) → Wrote fd block w w'))
            (λ e w'. OnlyFile v fd w w' × (e.status ≡ FileTransferStatus.file_write_error)) x)
        (sym (
          get_some-eq (write_loop fs (write_fuel block w) fd block 0 w)
            (write_loop-ne-none fd block w) r returned))
        h

  -- On a write(2) that behaves as documented, from the end of the file behind the descriptor: write_all
  -- ends. On success the block is appended to that file, and the position is behind it; a failure is a write error.
  -- Either way no other file has changed.
  pub write_all-appends :
      (fd : fs.Fd) (block : List ℕ) (w : World)
      → v.position fd w ≡ length (v.bytes (v.inode fd) w)
      → Ensures
          (λ u w'. OnlyFile v fd w w' × Wrote fd block w w')
          (λ e w'. OnlyFile v fd w w' × (e.status ≡ FileTransferStatus.file_write_error))
          (write_all fd block w)
  write_all-appends fd block w at_the_end =
      by_outcome (write_all fd block w) (write_all-Ensures fd block w)
    where
      by_outcome :
          (m : Outcome FileTransferResult (Unit {0}) × World)
          → Ensures
              (λ u w'.
                OnlyFile v fd w w'
                × (v.position fd w ≡ length (v.bytes (v.inode fd) w) → Wrote fd block w w'))
              (λ e w'. OnlyFile v fd w w' × (e.status ≡ FileTransferStatus.file_write_error))
              m
          → Ensures
              (λ u w'. OnlyFile v fd w w' × Wrote fd block w w')
              (λ e w'. OnlyFile v fd w w' × (e.status ≡ FileTransferStatus.file_write_error))
              m
      by_outcome (ok u, w1) (only, wrote) = (only, wrote at_the_end)
      by_outcome (err e, w1) h = h
