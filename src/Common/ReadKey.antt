-- ===== src/Common/ReadKey.antt =====
-- common/common.hpp, read_key
use packet_distribution_syst.Prelude.{none, some, ◌≡◌, refl, Bool, if◌then◌else◌, arith}
use packet_distribution_syst.Archive.{Bytes}
use packet_distribution_syst.Files.{FileSystem}

-- `std::invalid_argument` with the path that its text names.
pub data ReadKey (FilePath : Type 0) : Type 0 where
  key : Bytes → ReadKey FilePath
  invalid_argument : FilePath → ReadKey FilePath

-- `path.is_absolute()` and `current_path() / path`
pub record Location (FilePath : Type 0) : Type 0 where
  pub is_absolute : FilePath → Bool
  pub in_current_path : FilePath → FilePath

module _ (F : FileSystem) (location : Location F.FilePath) where
  unfoldable pub read_key : F.State → F.FilePath → ReadKey F.FilePath
  read_key s path = elim (F.content s path) [
    | none ↦
        invalid_argument (if location.is_absolute path then path else location.in_current_path path)
    | some bytes ↦ key bytes
  ]

  -- The key is what the file holds.
  pub read_key-content :
      (s : F.State) (p : F.FilePath) (bytes : Bytes)
      → F.content s p ≡ some bytes
      → read_key s p ≡ key bytes
  unfolding read_key
  read_key-content s p bytes h = rw (h, read_key) refl

  pub content-read_key :
      (s : F.State) (p : F.FilePath) (bytes : Bytes)
      → read_key s p ≡ key bytes
      → F.content s p ≡ some bytes
  unfolding read_key
  content-read_key s p bytes h = ground arith

  pub content-invalid_argument :
      (s : F.State) (p path : F.FilePath)
      → read_key s p ≡ invalid_argument path
      → F.content s p ≡ none
  unfolding read_key
  content-invalid_argument s p path h = ground arith
