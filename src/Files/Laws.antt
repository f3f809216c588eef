-- ===== src/Files/Laws.antt =====
-- What the program relies on of a file system, and what a stream leaves in it.
use mathlib.Core.Logic.{ite, if_pos, if_neg}
use mathlib.Core.Path.{ap₂}
use packet_distribution_syst.Prelude.{
  ℕ, ◌≤◌, ◌⊎◌, All, ◌≡◌, ◌≢◌, ◌∙◌, ap, sym, none, some, true, false, refl, [], ◌∷◌, ◌++◌, length,
  length-append, append-nil,
}
use packet_distribution_syst.Archive.{Bytes}
use packet_distribution_syst.Text.{is_digit}
use packet_distribution_syst.Files.{
  FileSystem, Stream, overlay, or_empty, open_file, put, put_endl, close,
}

-- A name with no separator in it: small letters, digits and dots.
abbrev pub IsPlain : ℕ → Type 0
IsPlain c = (is_digit c ≡ true) ⊎ ((b'a' ≤ c) × (c ≤ b'z')) ⊎ (c ≡ b'.')

pub record IsLawful (F : FileSystem) : Type 0 where
  pub content-write :
      (s : F.State) (p q : F.FilePath) (b : Bytes)
      → F.content (F.write s p b) q ≡ ite (F.same q p) (some b) (F.content s q)
  -- Writing to one file does not take away access to another.
  pub can_open-write :
      (s : F.State) (p q : F.FilePath) (b : Bytes) → F.can_open (F.write s p b) q ≡ F.can_open s q
  -- Creating a folder leaves the files alone.
  pub content-create_directories :
      (s t : F.State) (folder p : F.FilePath)
      → F.create_directories s folder ≡ some t
      → F.content t p ≡ F.content s p
  -- A folder that is created is there, and creating one that is there changes nothing.
  pub is_directory-create_directories :
      (s t : F.State) (folder : F.FilePath)
      → F.create_directories s folder ≡ some t
      → F.is_directory t folder ≡ true
  pub create_directories-again :
      (s : F.State) (folder : F.FilePath)
      → F.is_directory s folder ≡ true
      → F.create_directories s folder ≡ some s
  -- Folders stay when others are created and files are written.
  pub is_directory-kept :
      (s t : F.State) (folder other : F.FilePath)
      → F.create_directories s folder ≡ some t
      → F.is_directory s other ≡ true
      → F.is_directory t other ≡ true
  pub is_directory-write :
      (s : F.State) (p folder : F.FilePath) (b : Bytes)
      → F.is_directory s folder ≡ true
      → F.is_directory (F.write s p b) folder ≡ true
  -- Files of different names are different, in whatever folders.
  pub join-name :
      (f g : F.FilePath) (m n : Bytes)
      → All IsPlain m
      → All IsPlain n
      → F.join f m ≡ F.join g n
      → m ≡ n

overlay_at_end : (a new : Bytes) → overlay a (length a) new ≡ a ++ new
overlay_at_end [] [] = refl
overlay_at_end [] (b ∷ new) = refl
overlay_at_end (c ∷ a) new = ap (λ r. c ∷ r) (overlay_at_end a new)

module _ (F : FileSystem) where
  -- A stream that has written `a` and has nothing in its buffer.
  abbrev pub at_end : F.FilePath → Bytes → Stream F
  at_end p a = record { target = some p; position = length a; buffer = [] }

module _ (F : FileSystem) (L : IsLawful F) where
  pub content-write_self :
      (s : F.State) (p : F.FilePath) (b : Bytes) → F.content (F.write s p b) p ≡ some b
  content-write_self s p b = L.content-write s p p b ∙ if_pos (F.same p p) refl _ _

  pub content-write_other :
      (s : F.State) (p q : F.FilePath) (b : Bytes)
      → q ≢ p
      → F.content (F.write s p b) q ≡ F.content s q
  content-write_other s p q b other = L.content-write s p q b ∙ if_neg (F.same q p) other _ _

module _ (F : FileSystem) where
  pub open_file_lem :
      (s : F.State) (p : F.FilePath)
      → F.can_open s p ≡ true
      → open_file F s p ≡ (F.write s p [], at_end F p [])
  unfolding open_file
  open_file_lem s p h = rw h refl

  pub open_file_refused :
      (s : F.State) (p : F.FilePath)
      → F.can_open s p ≡ false
      → open_file F s p ≡ (s, record { target = none; position = 0; buffer = [] })
  unfolding open_file
  open_file_refused s p h = rw h refl

  -- A line goes behind what the stream has written.
  pub put_endl-put :
      (s : F.State) (p : F.FilePath) (a line : Bytes)
      → F.content s p ≡ some a
      → let b = a ++ (line ++ b'\n' ∷ []) in
        put_endl F s (put F (at_end F p a) line) ≡ (F.write s p b, at_end F p b)
  unfolding put_endl
  put_endl-put s p a line h =
      let new = line ++ b'\n' ∷ [] in
      ap₂ {C = F.State × Stream F}
        (λ (c : Bytes) (n : ℕ).
          (F.write s p c, record { target = some p; position = n; buffer = [] }))
        (ap (λ c. overlay (or_empty c) (length a) new) h ∙ overlay_at_end a new)
        (sym (length-append a new))

  pub close-at_end :
      (s : F.State) (p : F.FilePath) (a : Bytes)
      → F.content s p ≡ some a
      → close F s (at_end F p a) ≡ F.write s p a
  unfolding close
  close-at_end s p a h =
      ap (F.write s p)
        (ap (λ c. overlay (or_empty c) (length a) []) h ∙ overlay_at_end a [] ∙ append-nil a)

  -- Closing writes what is left in the buffer.
  pub close-put :
      (s : F.State) (p : F.FilePath) (a bytes : Bytes)
      → F.content s p ≡ some a
      → close F s (put F (at_end F p a) bytes) ≡ F.write s p (a ++ bytes)
  unfolding close put
  close-put s p a bytes h =
      ap (F.write s p) (ap (λ c. overlay (or_empty c) (length a) bytes) h ∙ overlay_at_end a bytes)
