-- ===== src/Tests/Keys.antt =====
-- bytes_to_hex_str, keygen and read_key at concrete inputs.
use packet_distribution_syst.Prelude.{
  inr, ◌≡◌, refl, ℕ, Bool, not, if◌then◌else◌, true, false, none, some, List, [], ◌∷◌, length,
  arith,
}
use packet_distribution_syst.Archive.{Bytes}
use packet_distribution_syst.Common.Hex.{bytes_to_hex_str, of_hex, of_hex-bytes_to_hex_str}
use packet_distribution_syst.Common.ReadKey.{Location}
use packet_distribution_syst.Keygen.{KeyPair, done}
use packet_distribution_syst.Keygen.Merged.{write_merged_keys}
use packet_distribution_syst.Keygen.Merged.Contents.{write_merged_keys_unopened}
use packet_distribution_syst.Keygen.Separate.{write_separate_keys}
use packet_distribution_syst.Keygen.Separate.Round.{OpensCreated}
use packet_distribution_syst.Keygen.Separate.Contents.{Stored, write_separate_keys_forced}
use packet_distribution_syst.Keygen.Separate.ReadBack.{ReadsBack, read_key-write_separate_keys}
use packet_distribution_syst.Text.{same_text}
use packet_distribution_syst.Keygen.Command.{
  VariablesMap, Ecdsa, read_settings, override, verifies, main, assertion_failed, finished,
}
use packet_distribution_syst.Keygen.Command.Options.{
  private, public, secp256k1, opt_help, opt_amount, opt_private_folder,
}
use packet_distribution_syst.Keygen.Command.Generated.{
  is_in, OnlyRegistered, AreKeyPairs, pairs_from, read_settings_folders, main_bad_pair,
  main_separate,
}
use packet_distribution_syst.Tests.Instances.{
  eq_bytes, flat_files, Contents, FolderAndName, Tree, folder_files, folder_files-IsLawful,
}

of_hex-bytes_to_hex_str_example :
    (length (bytes_to_hex_str (0 ∷ 171 ∷ 255 ∷ [])) ≡ 6)
    × (of_hex (bytes_to_hex_str (0 ∷ 171 ∷ 255 ∷ [])) ≡ some (0 ∷ 171 ∷ 255 ∷ []))
of_hex-bytes_to_hex_str_example = of_hex-bytes_to_hex_str (0 ∷ 171 ∷ 255 ∷ []) (omega arith)

abbrev pairs : List KeyPair
pairs =
    record { private_key = 1 ∷ 2 ∷ []; public_key = 3 ∷ [] }
    ∷ record { private_key = 4 ∷ []; public_key = 5 ∷ 6 ∷ [] }
    ∷ []

abbrev empty : Contents
empty p = none

-- One old file, named "a".
abbrev old_file : Contents
old_file (a ∷ [], []) = some (9 ∷ [])
old_file _ = none

write_merged_keys_unopened_example :
    write_merged_keys flat_files [] [] false pairs empty ≡ done empty
write_merged_keys_unopened_example =
    write_merged_keys_unopened flat_files [] [] false pairs empty refl refl (inr (refl, refl))

-- No folder and no file.
abbrev blank : Tree
blank = (λ name. false, empty)

folder_files-OpensCreated : (a b : Bytes) (s : Tree) → OpensCreated folder_files (a, []) (b, []) s
folder_files-OpensCreated a b s s₁ s₂ e f i =
    let L = folder_files-IsLawful in
    (
      L.is_directory-kept s₁ s₂ (b, []) (a, []) f
          (L.is_directory-create_directories s s₁ (a, []) e),
      L.is_directory-create_directories s₁ s₂ (b, []) f,
    )

write_separate_keys_forced_example :
    (t : Tree) × (write_separate_keys folder_files (b'p' ∷ []) (b'q' ∷ []) true pairs blank
      ≡ done t)
    × Stored folder_files (b'p' ∷ [], []) (b'q' ∷ [], []) 0 pairs t
write_separate_keys_forced_example =
    write_separate_keys_forced folder_files folder_files-IsLawful (b'p' ∷ []) (b'q' ∷ []) pairs
      blank (omega arith) (folder_files-OpensCreated (b'p' ∷ []) (b'q' ∷ []) blank)
      (_, _, refl, refl)

abbrev location : Location FolderAndName
location = record { is_absolute = λ p. true; in_current_path = λ p. p }

abbrev written :
    (t : Tree) × (write_separate_keys folder_files (b'p' ∷ []) (b'q' ∷ []) true pairs blank
      ≡ done t)
    × Stored folder_files (b'p' ∷ [], []) (b'q' ∷ [], []) 0 pairs t
written =
    write_separate_keys_forced folder_files folder_files-IsLawful (b'p' ∷ []) (b'q' ∷ []) pairs
      blank (omega arith) (folder_files-OpensCreated (b'p' ∷ []) (b'q' ∷ []) blank)
      (_, _, refl, refl)

read_key-write_separate_keys_example :
    ReadsBack folder_files folder_files-IsLawful location
      (b'p' ∷ [], [])
      (b'q' ∷ [], [])
      2
      (record { private_key = 4 ∷ []; public_key = 5 ∷ 6 ∷ [] })
      written.0
read_key-write_separate_keys_example =
    read_key-write_separate_keys folder_files folder_files-IsLawful location (b'p' ∷ []) (b'q' ∷ [])
      true pairs blank written.0 (folder_files-OpensCreated (b'p' ∷ []) (b'q' ∷ []) blank) written.1
      1 (record { private_key = 4 ∷ []; public_key = 5 ∷ 6 ∷ [] }) refl

-- A pair is its number twice, a signature the private key; number 7 is bad.
abbrev numbered : Bool → Ecdsa
numbered bad = record {
  KeyPairGenerator = Unit {0};
  make_generator = λ curve. if same_text curve secp256k1 then some tt else none;
  generate = λ _ i. record { private_key = i ∷ []; public_key = i ∷ [] };
  compute_hash = λ bytes. [];
  sign_hash = λ private_key hash nonce. private_key;
  verify_hash = λ public_key hash signature.
      if bad then not (eq_bytes signature (7 ∷ [])) else eq_bytes public_key signature;
  rand = λ n. n;
}

numbered-AreKeyPairs : AreKeyPairs (numbered false)
numbered-AreKeyPairs g i hash nonce = ground arith

-- --amount=<n> --private-key-output-folder=keys
abbrev command_line : ℕ → VariablesMap
command_line n = record {
  contains = λ name. is_in name (opt_amount ∷ opt_private_folder ∷ []);
  text = λ name. if same_text name opt_private_folder then some (b'k' ∷ []) else none;
  number = λ name. if same_text name opt_amount then some n else none;
  flag = λ name. none;
}

command_line-OnlyRegistered : (n : ℕ) → OnlyRegistered (command_line n)
unfolding is_in
command_line-OnlyRegistered n name h = ground arith

no_help : (command_line 9).contains opt_help ≡ false
unfolding is_in same_text
no_help = refl

read_settings_folders_example :
    ((read_settings (command_line 9)).private_key_output_folder ≡ private)
    × ((read_settings (command_line 9)).public_key_output_folder ≡ public)
read_settings_folders_example =
    read_settings_folders (command_line 9) (command_line-OnlyRegistered 9)

main_bad_pair_example :
    main flat_files (numbered true) (some (command_line 9)) empty ≡ assertion_failed empty
unfolding read_settings override same_text verifies
main_bad_pair_example =
    main_bad_pair flat_files (numbered true) (command_line 9) tt empty 7 no_help refl (omega arith)
      refl

main_separate_example :
    (t : Tree) × (main folder_files (numbered false) (some (command_line 9)) blank ≡ finished t)
    × Stored folder_files (private, []) (public, []) 0 (pairs_from (numbered false) tt 9 0) t
unfolding override same_text
main_separate_example =
    main_separate folder_files folder_files-IsLawful (numbered false) numbered-AreKeyPairs
      (command_line 9) tt blank (_, _, refl, refl) (folder_files-OpensCreated private public blank)
      (command_line-OnlyRegistered 9) (omega arith) no_help refl refl refl
