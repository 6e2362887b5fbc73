-- ===== src/FileTransfer/Kept.antt =====
-- src/common/file_transfer.cpp: how the calls of receive_file relate the files before and after.
use syncwire.Common.{ℕ, ◌≡◌, ◌≢◌, refl, ap, sym, ◌∙◌, List, [], ◌∷◌, ◌++◌, some, arith}
use syncwire.FileTransfer.Files.{FilePath, FileSystem, FileView, Same, OnlyFile, Opened}

module _ {World : Type 0} {fs : FileSystem World} (v : FileView fs) where
  pub Same-refl : (w : World) → Same v w w
  Same-refl w = record {
    same_files = λ p. refl;
    same_bytes = λ g. refl;
    same_position = λ fd. refl;
    quieter = omega arith;
  }

  pub Same-trans : (w1 w2 w3 : World) → Same v w1 w2 → Same v w2 w3 → Same v w1 w3
  Same-trans w1 w2 w3 a b = record {
    same_files = λ p. b.same_files p ∙ a.same_files p;
    same_bytes = λ g. b.same_bytes g ∙ a.same_bytes g;
    same_position = λ fd. b.same_position fd ∙ a.same_position fd;
    quieter = omega (arith, a.quieter, b.quieter);
  }

  pub OnlyFile-refl : (fd : fs.Fd) (w : World) → OnlyFile v fd w w
  OnlyFile-refl fd w = record {
    same_files = λ p. refl;
    same_others = λ g h. refl;
    quieter = omega arith;
  }

  pub Same-OnlyFile : (fd : fs.Fd) (w w' : World) → Same v w w' → OnlyFile v fd w w'
  Same-OnlyFile fd w w' a = record {
    same_files = a.same_files;
    same_others = λ g h. a.same_bytes g;
    quieter = a.quieter;
  }

  pub OnlyFile-trans :
      (fd : fs.Fd) (w1 w2 w3 : World)
      → OnlyFile v fd w1 w2
      → OnlyFile v fd w2 w3
      → OnlyFile v fd w1 w3
  OnlyFile-trans fd w1 w2 w3 a b = record {
    same_files = λ p. b.same_files p ∙ a.same_files p;
    same_others = λ g h. b.same_others g h ∙ a.same_others g h;
    quieter = omega (arith, a.quieter, b.quieter);
  }

  -- The path names the same file as before, if any, and that file has the same bytes.
  pub record Kept (q : FilePath) (w w' : World) : Type 0 where
    pub same_file : v.file_at q w' ≡ v.file_at q w
    pub same_content : (g : v.Inode) → v.file_at q w ≡ some g → v.bytes g w' ≡ v.bytes g w

  pub Kept-refl : (q : FilePath) (w : World) → Kept q w w
  Kept-refl q w = record { same_file = refl; same_content = λ g h. refl }

  pub Kept-trans : (q : FilePath) (w1 w2 w3 : World) → Kept q w1 w2 → Kept q w2 w3 → Kept q w1 w3
  Kept-trans q w1 w2 w3 a b = record {
    same_file = b.same_file ∙ a.same_file;
    same_content = λ g h. b.same_content g (a.same_file ∙ h) ∙ a.same_content g h;
  }

  pub Same-Kept : (q : FilePath) (w w' : World) → Same v w w' → Kept q w w'
  Same-Kept q w w' a = record { same_file = a.same_files q; same_content = λ g h. a.same_bytes g }

  pub Opened-Kept :
      (q : FilePath) (d : fs.Fd) (name : List ℕ) (fd : fs.Fd) (w w' : World)
      → q ≢ v.directory_path d ++ (name ∷ [])
      → Opened v d name fd w w'
      → Kept q w w'
  Opened-Kept q d name fd w w' other o = record {
    same_file = o.others q other;
    same_content = λ g h. o.held q g h;
  }

  pub OnlyFile-Kept :
      (q : FilePath) (fd : fs.Fd) (w w' : World)
      → v.file_at q w ≢ some (v.inode fd)
      → OnlyFile v fd w w'
      → Kept q w w'
  OnlyFile-Kept q fd w w' apart o = record {
    same_file = o.same_files q;
    same_content = λ g h. o.same_others g (λ e. apart (h ∙ ap some e));
  }

  -- Since `w0` the destination is kept, and the partial file is open and is not the destination.
  pub record Mine (final part : FilePath) (fd : fs.Fd) (w0 w : World) : Type 0 where
    pub kept : Kept final w0 w
    pub named : v.file_at part w ≡ some (v.inode fd)
    pub apart : v.file_at final w ≢ some (v.inode fd)

  pub OnlyFile-Mine :
      (final part : FilePath) (fd : fs.Fd) (w0 w w' : World)
      → Mine final part fd w0 w
      → OnlyFile v fd w w'
      → Mine final part fd w0 w'
  OnlyFile-Mine final part fd w0 w w' m o = record {
    kept = Kept-trans final w0 w w' m.kept (OnlyFile-Kept final fd w w' m.apart o);
    named = o.same_files part ∙ m.named;
    apart = λ e. m.apart (sym (o.same_files final) ∙ e);
  }

  pub Same-Mine :
      (final part : FilePath) (fd : fs.Fd) (w0 w w' : World)
      → Mine final part fd w0 w
      → Same v w w'
      → Mine final part fd w0 w'
  Same-Mine final part fd w0 w w' m a =
      OnlyFile-Mine final part fd w0 w w' m (Same-OnlyFile fd w w' a)
