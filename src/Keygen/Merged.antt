-- ===== src/Keygen/Merged.antt =====
-- keygen/main.cc, WriteMergedKeys
pub mod Contents
use packet_distribution_syst.Prelude.{
  Bool, true, false, not, ◌&&◌, List, [], ◌∷◌, ◌++◌, if◌then◌else◌,
}
use packet_distribution_syst.Archive.{Bytes}
use packet_distribution_syst.Files.{FileSystem, Stream, open_file, put, put_endl, close}
use packet_distribution_syst.Keygen.{
  KeyPair, Error, private_exists, public_exists, Result, done, thrown,
}

module _ (F : FileSystem) where
  unfoldable pub write_pairs :
      List KeyPair → F.State → Stream F → Stream F → F.State × Stream F × Stream F
  write_pairs [] s private_key_file public_key_file = (s, private_key_file, public_key_file)
  write_pairs (pair ∷ pairs) s private_key_file public_key_file =
      let private_written = put F private_key_file pair.private_key in
      let public_written = put F public_key_file pair.public_key in
      let (s', private_key_file') = put_endl F s private_written in
      let (s'', public_key_file') = put_endl F s' public_written in
      write_pairs pairs s'' private_key_file' public_key_file'

  -- From the opening of the two streams on.
  unfoldable pub write_files : F.FilePath → F.FilePath → List KeyPair → F.State → F.State
  write_files private_path public_path key_pairs s =
      let (s₁, private_key_file) = open_file F s private_path in
      let (s₂, public_key_file) = open_file F s₁ public_path in
      let (s₃, private_done, public_done) =
        write_pairs key_pairs s₂ private_key_file public_key_file in
      close F (close F s₃ private_done) public_done

  unfoldable pub write_merged_keys : Bytes → Bytes → Bool → List KeyPair → F.State → Result F.State
  write_merged_keys private_key_merged_file public_key_merged_file force key_pairs s =
      let private_path = F.path private_key_merged_file in
      let public_path = F.path public_key_merged_file in
      if not force && F.exists s private_path
      then thrown private_exists s
      else if not force && F.exists s public_path
      then thrown public_exists s
      else done (write_files private_path public_path key_pairs s)
