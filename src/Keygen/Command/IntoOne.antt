-- ===== src/Keygen/Command/IntoOne.antt =====
-- What a run of keygen with --merge leaves behind.
use packet_distribution_syst.Prelude.{◌≡◌, ◌≢◌, ◌⊎◌, ◌∙◌, ap, true, false, some, List, [], refl}
use packet_distribution_syst.Archive.{Bytes}
use packet_distribution_syst.Files.{FileSystem}
use packet_distribution_syst.Files.Laws.{IsLawful}
use packet_distribution_syst.Keygen.{KeyPair}
use packet_distribution_syst.Keygen.Merged.{write_merged_keys}
use packet_distribution_syst.Keygen.Merged.Contents.{
  lines, private_of, public_of, write_merged_keys_done,
}
use packet_distribution_syst.Keygen.Command.{
  VariablesMap, Settings, override, read_settings, Ecdsa, finished, main_catch, write_keys, main,
}
use packet_distribution_syst.Keygen.Command.Generated.{
  AreKeyPairs, pairs_from, run_generator-pairs_from, run_options_generator, main_catch_done,
}
use packet_distribution_syst.Keygen.Command.Options.{
  secp256k1, opt_help, opt_curve, opt_amount, opt_force, opt_merge, opt_private_merged,
  opt_public_merged,
}

module _ (F : FileSystem) (E : Ecdsa) where
  write_keys_merged :
      (o : Settings) (pairs : List KeyPair) (s : F.State) (a b : Bytes)
      → o.merge ≡ true
      → o.private_key_merged_file ≡ a
      → o.public_key_merged_file ≡ b
      → write_keys F E o pairs s ≡ write_merged_keys F a b o.force pairs s
  unfolding write_keys
  write_keys_merged o pairs s a b merge pa pb = rw (merge, pa, pb) refl

module _ (F : FileSystem) (L : IsLawful F) (E : Ecdsa) where
  -- With --merge true, names for the two files, no --help and a known curve, where generated pairs
  -- verify and the two files are different, can be opened and either do not exist or may be
  -- overwritten, keygen ends regularly: each file holds the keys of its kind of as many pairs as
  -- --amount asks for, or one, each followed by a line end.
  pub main_merged :
      AreKeyPairs E
      → (vm : VariablesMap) (g : E.KeyPairGenerator) (s : F.State)
        (private_name public_name : Bytes)
      → vm.contains opt_help ≡ false
      → vm.flag opt_merge ≡ some true
      → vm.text opt_private_merged ≡ some private_name
      → vm.text opt_public_merged ≡ some public_name
      → E.make_generator (override secp256k1 (vm.text opt_curve)) ≡ some g
      → F.path private_name ≢ F.path public_name
      → F.can_open s (F.path private_name) ≡ true
      → F.can_open s (F.path public_name) ≡ true
      → (override true (vm.flag opt_force) ≡ true)
        ⊎ ((F.exists s (F.path private_name) ≡ false) × (F.exists s (F.path public_name) ≡ false))
      → let pairs = pairs_from E g (override 1 (vm.number opt_amount)) 0 in
        (t : F.State) × (main F E (some vm) s ≡ finished t)
        × (F.content t (F.path private_name) ≡ some (lines private_of pairs))
        × (F.content t (F.path public_name) ≡ some (lines public_of pairs))
  unfolding main read_settings override
  main_merged keys vm g s private_name public_name no_help merge has_private has_public made
        distinct open_private open_public allowed =
      let pairs = pairs_from E g (override 1 (vm.number opt_amount)) 0 in
      let (t, e, private_file, public_file, rest) =
        write_merged_keys_done F L private_name public_name (override true (vm.flag opt_force))
          pairs s distinct open_private open_public allowed in
      (
        t,
        run_options_generator F E vm g s no_help made
            ∙ run_generator-pairs_from F E keys (read_settings vm) g s
            ∙ ap main_catch (
                write_keys_merged F E (read_settings vm) pairs s private_name public_name
                  (ap (override false) merge) (ap (override []) has_private)
                  (ap (override []) has_public)
                ∙ e)
            ∙ main_catch_done t,
        private_file,
        public_file,
      )
