-- ===== src/Files.antt =====
-- What the program uses of std::filesystem and the file streams. The file system itself is a
-- parameter. Text mode's line end translation and the capacity of a stream's buffer are left out.
pub mod Laws
use packet_distribution_syst.Prelude.{
  ℕ, zero, suc, ◌+◌, ◌≡◌, Bool, true, false, Option, none, some, List, [], ◌∷◌, ◌++◌, length,
  if◌then◌else◌,
}
use packet_distribution_syst.Archive.{Bytes}

pub record FileSystem : Type 1 where
  -- A path, up to naming the same file.
  pub FilePath : Type 0
  pub State : Type 0
  pub same : Discrete FilePath
  -- `std::filesystem::path(name)` and `folder / name`
  pub path : Bytes → FilePath
  pub join : FilePath → Bytes → FilePath
  pub exists : State → FilePath → Bool
  -- The bytes of a file that can be read.
  pub content : State → FilePath → Option Bytes
  pub is_directory : State → FilePath → Bool
  -- Whether `std::ofstream` opens the path.
  pub can_open : State → FilePath → Bool
  pub write : State → FilePath → Bytes → State
  -- `none` is a filesystem_error.
  pub create_directories : State → FilePath → Option State

-- The bytes of a file after `new` is written at a position in it.
abbrev pub overlay : Bytes → ℕ → Bytes → Bytes
overlay old zero [] = old
overlay [] zero (b ∷ new) = b ∷ new
overlay (c ∷ old) zero (b ∷ new) = b ∷ overlay old zero new
overlay [] (suc n) new = 0 ∷ overlay [] n new
overlay (c ∷ old) (suc n) new = c ∷ overlay old n new

abbrev pub or_empty : Option Bytes → Bytes
or_empty none = []
or_empty (some b) = b

module _ (F : FileSystem) where
  -- A `std::ofstream`; one that did not open has no target, and ignores what is written to it.
  pub record Stream : Type 0 where
    pub target : Option F.FilePath
    pub position : ℕ
    pub buffer : Bytes

module _ (F : FileSystem) where
  unfoldable pub open_file : F.State → F.FilePath → F.State × Stream F
  open_file s p =
      if F.can_open s p
      then (F.write s p [], record { target = some p; position = 0; buffer = [] })
      else (s, record { target = none; position = 0; buffer = [] })

  unfoldable pub put : Stream F → Bytes → Stream F
  put stream bytes = record stream { buffer = stream.buffer ++ bytes }

  unfoldable pub flush : F.State → Stream F → F.State × Stream F
  flush s stream = elim stream.target [
    | none ↦ (s, record stream { buffer = [] })
    | some p ↦ (
      F.write s p (overlay (or_empty (F.content s p)) stream.position stream.buffer),
      record stream { position = stream.position + length stream.buffer; buffer = [] },
    )
  ]

  -- `stream << std::endl`
  unfoldable pub put_endl : F.State → Stream F → F.State × Stream F
  unfolding flush put
  put_endl s stream = flush s (put stream (b'\n' ∷ []))

  unfoldable pub close : F.State → Stream F → F.State
  unfolding flush
  close s stream = (flush s stream).0
