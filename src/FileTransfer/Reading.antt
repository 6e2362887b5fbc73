-- ===== src/FileTransfer/Reading.antt =====
-- read_partial_prefix of src/common/file_transfer.cpp, in terms of the file behind the descriptor.
use syncwire.Common.{
  ℕ, zero, suc, ◌+◌, ◌-◌, ◌<◌, ◌≡◌, ◌≢◌, refl, ap, sym, subst, ◌∙◌, List, Option, none, some, ◌==◌,
  length, take, drop, min, arith, Bool-cases, inl, inr, get_some, get_some-eq, Outcome, Ensures,
  take-drop-take,
}
use syncwire.Crc32.{initial_state, update, update-append}
use syncwire.SocketIo.{Received, got_some, got_zero, got_interrupted, got_error}
use syncwire.TransferCodec.{default_chunk_size}
use syncwire.FileTransfer.Files.{FileSystem, FileView, FileLaws, OnlyFile, ReadWell}
use syncwire.FileTransfer.Kept.{OnlyFile-refl, OnlyFile-trans, Same-OnlyFile}
use syncwire.FileTransfer.Blocks.{read_loop, read_next}

module _ {World : Type 0} {fs : FileSystem World} {v : FileView fs} (laws : FileLaws v) where
  -- `remaining` bytes are left of the `size` first ones of the file, and the checksum is that of the others.
  record Reads (fd : fs.Fd) (size : ℕ) (w0 : World) (remaining checksum : ℕ) (w : World)
      : Type 0 where
    only : OnlyFile v fd w0 w
    same : v.bytes (v.inode fd) w ≡ v.bytes (v.inode fd) w0
    seen :
        v.position fd w0 ≡ 0
        → (v.position fd w + remaining ≡ size)
          × (checksum ≡ update initial_state (take (v.position fd w) (v.bytes (v.inode fd) w0)))

  abbrev pub ReadPrefix : fs.Fd → ℕ → World → ℕ → World → Type 0
  ReadPrefix fd size w0 checksum w =
      OnlyFile v fd w0 w
      × (v.bytes (v.inode fd) w ≡ v.bytes (v.inode fd) w0)
      × (v.position fd w0 ≡ 0
          → (v.position fd w ≡ size)
            × (checksum ≡ update initial_state (take size (v.bytes (v.inode fd) w0))))

  abbrev Finds : fs.Fd → ℕ → World → Option (Outcome (Unit {0}) ℕ × World) → Type 0
  Finds fd size w0 o =
      (r : Outcome (Unit {0}) ℕ × World) × (o ≡ some r)
      × Ensures (λ c w'. ReadPrefix fd size w0 c w') (λ e w'. OnlyFile v fd w0 w') r

  read_next-Finds :
      (again : ℕ → ℕ → World → Option (Outcome (Unit {0}) ℕ × World)) (fd : fs.Fd) (size : ℕ)
      (w0 w : World) (remaining checksum : ℕ) (answer : Received) (w1 : World)
      → ((remaining' checksum' : ℕ) (w' : World)
          → Reads fd size w0 remaining' checksum' w'
          → v.signals w' + remaining' < v.signals w + remaining
          → Finds fd size w0 (again remaining' checksum' w'))
      → Reads fd size w0 remaining checksum w
      → 0 < remaining
      → ReadWell v fd (min remaining default_chunk_size) answer w w1
      → Finds fd size w0 (read_next fs again remaining checksum answer w1)
  unfolding read_next
  read_next-Finds again fd size w0 w remaining checksum (got_some got) w1 ih h more
        (some_got, most, there, moved, kept, only) =
      let content = v.bytes (v.inode fd) w0 in
      let pos = v.position fd w in
      ih (remaining - length got) (update checksum got) w1
        (record {
          only = OnlyFile-trans v fd w0 w w1 h.only only;
          same = kept ∙ h.same;
          seen = λ start. (
            omega (arith, moved, (h.seen start).0),
            ap (λ (c : ℕ). update c got) (h.seen start).1
                ∙ ap (update (update initial_state (take pos content)))
                    (sym there ∙ ap (λ (l : List ℕ). take (length got) (drop pos l)) h.same)
                ∙ sym (
                    update-append initial_state (take pos content)
                      (take (length got) (drop pos content)))
                ∙ ap (update initial_state) (
                    take-drop-take pos (length got) content
                    ∙ ap (λ (k : ℕ). take k content) (sym moved)),
          );
        })
        (omega (arith, only.quieter))
  read_next-Finds again fd size w0 w remaining checksum got_zero w1 ih h more same =
      (_, refl, OnlyFile-trans v fd w0 w w1 h.only (Same-OnlyFile v fd w w1 same))
  read_next-Finds again fd size w0 w remaining checksum got_interrupted w1 ih h more (same, fewer) =
      ih remaining checksum w1
        (record {
          only = OnlyFile-trans v fd w0 w w1 h.only (Same-OnlyFile v fd w w1 same);
          same = same.same_bytes (v.inode fd) ∙ h.same;
          seen = λ start. (
            omega (arith, same.same_position fd, (h.seen start).0),
            (h.seen start).1
                ∙ ap (λ (k : ℕ). update initial_state (take k (v.bytes (v.inode fd) w0)))
                    (sym (same.same_position fd)),
          );
        })
        (omega arith)
  read_next-Finds again fd size w0 w remaining checksum (got_error e) w1 ih h more same =
      (_, refl, OnlyFile-trans v fd w0 w w1 h.only (Same-OnlyFile v fd w w1 same))

  read_loop-Finds :
      (fuel : ℕ) (fd : fs.Fd) (size : ℕ) (w0 w : World) (remaining checksum : ℕ)
      → Reads fd size w0 remaining checksum w
      → v.signals w + remaining < fuel
      → Finds fd size w0 (read_loop fs fuel fd remaining checksum w)
  unfolding read_loop
  read_loop-Finds zero fd size w0 w remaining checksum h enough = absurd (omega arith)
  read_loop-Finds (suc fuel) fd size w0 w remaining checksum h enough =
      elim (Bool-cases (remaining == 0)) [
        | inl done ↦
            rw (done, read_loop)
              (
                _,
                refl,
                (
                  h.only,
                  h.same,
                  λ start. (
                    ground (arith, (h.seen start).0),
                    (h.seen start).1
                        ∙ ap (λ (k : ℕ). update initial_state (take k (v.bytes (v.inode fd) w0)))
                            (ground (arith, (h.seen start).0)),
                  ),
                ),
              )
        | inr more ↦
            rw (more, read_loop)
              (read_next-Finds (read_loop fs fuel fd) fd size w0 w remaining checksum _ _
                (λ remaining' checksum' w' h' less.
                  read_loop-Finds fuel fd size w0 w' remaining' checksum' h' (omega arith))
                h (ground arith) (laws.read_law fd (min remaining default_chunk_size) w))
      ]

  abbrev pub read_fuel : ℕ → World → ℕ
  read_fuel size w = suc (v.signals w + size)

  read_loop-ends :
      (fd : fs.Fd) (size : ℕ) (w : World)
      → Finds fd size w (read_loop fs (read_fuel size w) fd size initial_state w)
  read_loop-ends fd size w =
      read_loop-Finds (read_fuel size w) fd size w w size initial_state
        (record {
          only = OnlyFile-refl v fd w;
          same = refl;
          seen = λ start. (
            omega arith,
            unfold update in
                ap (λ (k : ℕ). update initial_state (take k (v.bytes (v.inode fd) w))) (sym start),
          );
        })
        (omega arith)

  pub read_loop-ne-none :
      (fd : fs.Fd) (size : ℕ) (w : World)
      → read_loop fs (read_fuel size w) fd size initial_state w ≢ none
  read_loop-ne-none fd size w e =
      let (r, returned, _) = read_loop-ends fd size w in cc (e, returned)

  -- read_partial_prefix, with fuel for every signal to come and every byte.
  unfoldable pub read_partial_prefix : fs.Fd → ℕ → World → Outcome (Unit {0}) ℕ × World
  unfolding read_loop
  read_partial_prefix fd size w =
      get_some (read_loop fs (read_fuel size w) fd size initial_state w)
        (read_loop-ne-none fd size w)

  pub read_partial_prefix-Ensures :
      (fd : fs.Fd) (size : ℕ) (w : World)
      → Ensures
          (λ c w'. ReadPrefix fd size w c w')
          (λ e w'. OnlyFile v fd w w')
          (read_partial_prefix fd size w)
  unfolding read_partial_prefix
  read_partial_prefix-Ensures fd size w =
      let (r, returned, h) = read_loop-ends fd size w in
      subst
        (λ (x : Outcome (Unit {0}) ℕ × World).
          Ensures (λ c w'. ReadPrefix fd size w c w') (λ e w'. OnlyFile v fd w w') x)
        (sym (
          get_some-eq (read_loop fs (read_fuel size w) fd size initial_state w)
            (read_loop-ne-none fd size w) r returned))
        h
