-- ===== src/Keygen/Separate.antt =====
-- keygen/main.cc, WriteSeparateKeys
pub mod Names
pub mod Round
pub mod Contents
pub mod ReadBack
use packet_distribution_syst.Prelude.{
  ℕ, suc, Bool, true, false, not, ◌&&◌, none, some, List, [], ◌∷◌, ◌++◌, ℤ, pos, ltb, if◌then◌else◌,
}
use packet_distribution_syst.Archive.{Bytes}
use packet_distribution_syst.Text.{to_string}
use packet_distribution_syst.Files.{FileSystem, open_file, put, close}
use packet_distribution_syst.Keygen.{
  KeyPair, Error, private_exists, public_exists, filesystem_error, Result, done, thrown, overflow,
}

-- "private" + std::to_string(i) + ".pem"
unfoldable pub private_name : ℕ → Bytes
private_name i =
    (b'p' ∷ b'r' ∷ b'i' ∷ b'v' ∷ b'a' ∷ b't' ∷ b'e' ∷ [])
    ++ (to_string (pos i) ++ (b'.' ∷ b'p' ∷ b'e' ∷ b'm' ∷ []))

-- "public" + std::to_string(i) + ".pem"
unfoldable pub public_name : ℕ → Bytes
public_name i =
    (b'p' ∷ b'u' ∷ b'b' ∷ b'l' ∷ b'i' ∷ b'c' ∷ [])
    ++ (to_string (pos i) ++ (b'.' ∷ b'p' ∷ b'e' ∷ b'm' ∷ []))

infixl 5 ◌>>=◌
abbrev pub ◌>>=◌ : {S : Type 0} → Result S → (S → Result S) → Result S
done s >>= f = f s
thrown e s >>= f = thrown e s
overflow >>= f = overflow

module _ (F : FileSystem) where
  create : F.FilePath → F.State → Result F.State
  create folder s = elim (F.create_directories s folder) [
    | none ↦ thrown filesystem_error s
    | some t ↦ done t
  ]

  unfoldable pub write_pair : F.FilePath → F.FilePath → KeyPair → F.State → F.State
  write_pair private_path public_path pair s =
      let (s₁, private_key_file) = open_file F s private_path in
      let (s₂, public_key_file) = open_file F s₁ public_path in
      let private_written = put F private_key_file pair.private_key in
      let public_written = put F public_key_file pair.public_key in
      close F (close F s₂ private_written) public_written

  -- One round of the loop, for the pair number `i`.
  unfoldable pub write_round :
      F.FilePath → F.FilePath → Bool → ℕ → KeyPair → F.State → Result F.State
  unfolding create
  write_round private_folder public_folder force i pair s =
      let private_path = F.join private_folder (private_name i) in
      let public_path = F.join public_folder (public_name i) in
      if not force && F.exists s private_path
      then thrown private_exists s
      else if not force && F.exists s public_path
      then thrown public_exists s
      else create private_folder s >>= λ s₁.
          create public_folder s₁ >>= λ s₂. done (write_pair private_path public_path pair s₂)

  -- The pairs behind the first `i`, which is an int.
  unfoldable pub write_rounds :
      F.FilePath → F.FilePath → Bool → ℕ → List KeyPair → F.State → Result F.State
  write_rounds private_folder public_folder force i [] s = done s
  write_rounds private_folder public_folder force i (pair ∷ pairs) s =
      if ltb i 0x7fff_ffff
      then (write_round private_folder public_folder force (suc i) pair s >>= λ t.
          write_rounds private_folder public_folder force (suc i) pairs t)
      else overflow

  unfoldable pub write_separate_keys :
      Bytes → Bytes → Bool → List KeyPair → F.State → Result F.State
  write_separate_keys private_key_output_folder public_key_output_folder force key_pairs s =
      write_rounds (F.path private_key_output_folder) (F.path public_key_output_folder) force 0
        key_pairs s
