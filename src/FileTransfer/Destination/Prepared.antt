-- ===== src/FileTransfer/Destination/Prepared.antt =====
-- prepare_destination of src/common/file_transfer.cpp: the paths that it leads to.
use syncwire.Common.{
  ℕ, ◌≡◌, refl, ap, sym, subst, List, [], ◌∷◌, ◌++◌, Option, none, some, ◌==◌, Outcome, ok, err,
  then_do, attempt, map_err, Ensures, Ensures-then_do, Option-cases, Bool-cases, inl, inr,
}
use mathlib.Core.List.{append_assoc, append-nil}
use syncwire.Paths.{partial_directory}
use syncwire.Paths.Components.{split}
use syncwire.TransferCodec.{UploadMetadata}
use syncwire.FileTransfer.Files.{
  FilePath, FileStatus, missing, directory, symlink, regular, other_kind, status_error, FileSystem,
  FileView, FileLaws, Same,
}
use syncwire.FileTransfer.Kept.{Same-refl, Same-trans}
use syncwire.FileTransfer.Destination.{
  Unprepared, system_failed, PreparedDestination, child, ensure_directory, ensure_parents,
  digest_of, make_state_root, open_state_root, prepare_destination, eexist,
}

module _ {World : Type 0} {fs : FileSystem World} {v : FileView fs} (laws : FileLaws v) where
  -- The step has left all files as they were in `w0`, however it ended.
  abbrev Still : {A : Type 0} → World → (A → Type 0) → Outcome Unprepared A × World → Type 0
  Still w0 P m = Ensures (λ a w'. Same v w0 w' × P a) (λ e w'. Same v w0 w') m

  abbrev Any : {A : Type 0} → A → Type 0
  Any a = Unit {0}

  and_then :
      {A B : Type 0} (P : A → Type 0) (R : B → Type 0) (w0 : World)
      (m : Outcome Unprepared A × World) (f : A → World → Outcome Unprepared B × World)
      → Still w0 P m
      → ((a : A) (w : World) → Same v w0 w → P a → Still w0 R (f a w))
      → Still w0 R (then_do m f)
  and_then P R w0 m f h k =
      Ensures-then_do (λ a w'. Same v w0 w' × P a) (λ b w'. Same v w0 w' × R b)
        (λ e w'. Same v w0 w') m f h (λ a w (same, p). k a w same p)

  attempt-Still :
      (w0 : World) (m : Option ℕ × World)
      → Same v w0 m.1
      → Still w0 Any (map_err system_failed (attempt m))
  attempt-Still w0 (none, w) h = (h, tt)
  attempt-Still w0 (some e, w) h = h

  ensure_directory-Still :
      (create : FilePath → World → Option ℕ × World) (path : FilePath) (w0 w : World)
      → Same v w0 w
      → Same v w (create path w).1
      → Still w0 Any (ensure_directory fs create path w)
  unfolding ensure_directory
  ensure_directory-Still create path w0 w h made = by_status (fs.symlink_status path w) refl
    where
      by_status :
          (s : FileStatus)
          → fs.symlink_status path w ≡ s
          → Still w0 Any (ensure_directory fs create path w)
      by_status missing e =
          rw (e, ensure_directory) (attempt-Still w0 (create path w) (Same-trans v w0 w _ h made))
      by_status directory e = rw (e, ensure_directory) (h, tt)
      by_status symlink e = rw (e, ensure_directory) h
      by_status regular e = rw (e, ensure_directory) h
      by_status other_kind e = rw (e, ensure_directory) h
      by_status (status_error n) e = rw (e, ensure_directory) h

  ensure_parents-Still :
      (components : List (List ℕ)) (parent : FilePath) (w0 w : World)
      → Same v w0 w
      → Still w0 (λ final. final ≡ parent ++ components) (ensure_parents fs parent components w)
  unfolding ensure_parents
  ensure_parents-Still [] parent w0 w h = (h, sym (append-nil parent))
  ensure_parents-Still (name ∷ []) parent w0 w h = (h, refl)
  ensure_parents-Still (component ∷ next ∷ rest) parent w0 w h =
      and_then Any (λ final. final ≡ parent ++ (component ∷ next ∷ rest)) w0
        (ensure_directory fs fs.create_directory (child parent component) w)
        (λ u w1. ensure_parents fs (child parent component) (next ∷ rest) w1)
        (ensure_directory-Still fs.create_directory (child parent component) w0 w h
          (laws.create_directory_law _ w))
        (λ u w1 h1 any.
          rw⁻¹ (append_assoc parent (component ∷ []) (next ∷ rest))
            (ensure_parents-Still (next ∷ rest) (child parent component) w0 w1 h1))

  digest_of-Still :
      (metadata : UploadMetadata) (w0 w : World)
      → Same v w0 w
      → Still w0 Any (digest_of fs metadata w, w)
  digest_of-Still metadata w0 w h = by_outcome (digest_of fs metadata w)
    where
      by_outcome : (o : Outcome Unprepared (List ℕ)) → Still w0 Any (o, w)
      by_outcome (ok d) = (h, tt)
      by_outcome (err e) = h

  make_state_root-Still :
      (path : FilePath) (w0 w : World) → Same v w0 w → Still w0 Any (make_state_root fs path w)
  unfolding make_state_root
  make_state_root-Still path w0 w h =
      let made = Same-trans v w0 w _ h (laws.mkdir_law path w) in
      elim (Option-cases (fs.mkdir path w).0) [
        | inl n ↦ rw (n, make_state_root) (made, tt)
        | inr (e, s) ↦ elim (Bool-cases (e == eexist)) [
          | inl there ↦ rw (s, make_state_root, there) (made, tt)
          | inr not_there ↦ rw (s, make_state_root, not_there) made
        ]
      ]

  -- Where the upload goes, and where its partial file does.
  pub record IsPrepared (root : FilePath) (metadata : UploadMetadata)
      (p : PreparedDestination fs.Fd) : Type 0 where
    pub final : p.final_path ≡ root ++ split metadata.filename
    pub part : p.part_path ≡ child (child root partial_directory) p.part_name
    pub opened : v.directory_path p.directory ≡ child root partial_directory

  open_state_root-Still :
      (root : FilePath) (metadata : UploadMetadata) (final : FilePath) (digest : List ℕ)
      (w0 w : World)
      → Same v w0 w
      → final ≡ root ++ split metadata.filename
      → Still w0
          (IsPrepared root metadata)
          (open_state_root fs (child root partial_directory) final digest w)
  unfolding open_state_root
  open_state_root-Still root metadata final digest w0 w h e =
      by_outcome (fs.open_directory (child root partial_directory) w) refl
    where
      by_outcome :
          (o : Outcome ℕ fs.Fd × World)
          → fs.open_directory (child root partial_directory) w ≡ o
          → Still w0
              (IsPrepared root metadata)
              (open_state_root fs (child root partial_directory) final digest w)
      by_outcome (ok d, w1) s =
          let (same, there) = laws.open_directory_law (child root partial_directory) w in
          rw (s, open_state_root)
            (
              Same-trans v w0 w w1 h
                  (subst (Same v w) (ap (λ (x : Outcome ℕ fs.Fd × World). x.1) s) same),
              record {
                final = e;
                part = refl;
                opened = there d (ap (λ (x : Outcome ℕ fs.Fd × World). x.0) s);
              },
            )
      by_outcome (err n, w1) s =
          rw (s, open_state_root)
            (Same-trans v w0 w w1 h (
              subst (Same v w) (ap (λ (x : Outcome ℕ fs.Fd × World). x.1) s)
                (laws.open_directory_law (child root partial_directory) w).0))

  -- Every file stays as it is, and the paths are those of the upload.
  pub prepare_destination-IsPrepared :
      (root : FilePath) (metadata : UploadMetadata) (w : World)
      → Ensures
          (λ p w'. Same v w w' × IsPrepared root metadata p)
          (λ e w'. Same v w w')
          (prepare_destination fs root metadata w)
  unfolding prepare_destination
  prepare_destination-IsPrepared root metadata w =
      and_then Any (IsPrepared root metadata) w _ _
        (ensure_directory-Still fs.create_directories root w w (Same-refl v w)
          (laws.create_directories_law root w))
        (λ u w1 h1 any.
          and_then (λ final. final ≡ root ++ split metadata.filename) (IsPrepared root metadata) w _
            _ (ensure_parents-Still (split metadata.filename) root w w1 h1)
            (λ final w2 h2 e.
              and_then Any (IsPrepared root metadata) w _ _ (digest_of-Still metadata w w2 h2)
                (λ digest w3 h3 any'.
                  and_then Any (IsPrepared root metadata) w _ _
                    (make_state_root-Still (child root partial_directory) w w3 h3)
                    (λ u' w4 h4 any''.
                      open_state_root-Still root metadata final digest w w4 h4 e))))
