-- ===== src/Keygen/Command/Generated.antt =====
-- What a run of keygen leaves behind.
use packet_distribution_syst.Prelude.{
  ℕ, zero, suc, ◌+◌, ◌<◌, arith, ◌≡◌, refl, ◌∙◌, ap, Bool, true, false, ◌||◌, none, some, List, [],
  ◌∷◌, Bool-cases, inl, inr, length,
}
use packet_distribution_syst.Archive.{Bytes}
use packet_distribution_syst.Text.{same_text}
use packet_distribution_syst.Files.{FileSystem}
use packet_distribution_syst.Files.Laws.{IsLawful}
use packet_distribution_syst.Keygen.{KeyPair, done}
use packet_distribution_syst.Keygen.Separate.{write_separate_keys}
use packet_distribution_syst.Keygen.Separate.Round.{Creates, OpensCreated}
use packet_distribution_syst.Keygen.Separate.Contents.{Stored, write_separate_keys_forced}
use packet_distribution_syst.Keygen.Command.{
  VariablesMap, Settings, override, read_settings, Ecdsa, assertion_failed, finished, main_catch,
  verifies, generate_pairs, write_keys, write_generated, run_generator, run_options, main,
}
use packet_distribution_syst.Keygen.Command.Options.{
  registered, private, public, secp256k1, opt_help, opt_curve, opt_amount, opt_force, opt_merge,
  opt_private_output, opt_public_output,
}

unfoldable pub is_in : Bytes → List Bytes → Bool
is_in name [] = false
is_in name (n ∷ names) = same_text name n || is_in name names

-- The map has no value for an option that is not registered.
abbrev pub OnlyRegistered : VariablesMap → Type 0
OnlyRegistered vm = (name : Bytes) → is_in name registered ≡ false → vm.text name ≡ none

-- A generated pair verifies what it signs.
abbrev pub AreKeyPairs : Ecdsa → Type 0
AreKeyPairs E =
    (g : E.KeyPairGenerator) (i : ℕ) (hash : Bytes) (nonce : ℕ)
    → E.verify_hash (E.generate g i).public_key hash
        (E.sign_hash (E.generate g i).private_key hash nonce)
      ≡ true

private_output_unregistered : is_in opt_private_output registered ≡ false
unfolding is_in same_text
private_output_unregistered = refl

public_output_unregistered : is_in opt_public_output registered ≡ false
unfolding is_in same_text
public_output_unregistered = refl

-- Whatever the command line says, also behind --private-key-output-folder and --public-key-output-
-- folder, the folders are "private" and "public", if the map holds no value for a name that is not
-- registered.
pub read_settings_folders :
    (vm : VariablesMap)
    → OnlyRegistered vm
    → ((read_settings vm).private_key_output_folder ≡ private)
      × ((read_settings vm).public_key_output_folder ≡ public)
unfolding read_settings override
read_settings_folders vm only = (
  ap (override private) (only opt_private_output private_output_unregistered),
  ap (override public) (only opt_public_output public_output_unregistered),
)

module _ (E : Ecdsa) where
  -- The pairs from number `i` on.
  unfoldable pub pairs_from : E.KeyPairGenerator → ℕ → ℕ → List KeyPair
  pairs_from generator zero i = []
  pairs_from generator (suc remaining) i =
      E.generate generator i ∷ pairs_from generator remaining (suc i)

  length-pairs_from :
      (generator : E.KeyPairGenerator) (remaining i : ℕ)
      → length (pairs_from generator remaining i) ≡ remaining
  unfolding pairs_from
  length-pairs_from generator zero i = refl
  length-pairs_from generator (suc remaining) i =
      ap suc (length-pairs_from generator remaining (suc i))

  generate_pairs-pairs_from :
      AreKeyPairs E
      → (generator : E.KeyPairGenerator) (remaining i : ℕ)
      → generate_pairs E generator remaining i ≡ some (pairs_from generator remaining i)
  unfolding generate_pairs pairs_from verifies
  generate_pairs-pairs_from keys generator zero i = refl
  generate_pairs-pairs_from keys generator (suc remaining) i =
      rw (keys generator i _ i, generate_pairs-pairs_from keys generator remaining (suc i)) refl

module _ (E : Ecdsa) where
  generate_pairs_bad :
      (generator : E.KeyPairGenerator) (remaining i k : ℕ)
      → k < remaining
      → verifies E (i + k) (E.generate generator (i + k)) ≡ false
      → generate_pairs E generator remaining i ≡ none
  unfolding generate_pairs
  generate_pairs_bad generator zero i k small bad = absurd (omega arith)
  generate_pairs_bad generator (suc remaining) i zero small bad =
      let here : verifies E i (E.generate generator i) ≡ false =
        ap (λ n. verifies E n (E.generate generator n)) (omega arith) ∙ bad in
      rw here refl
  generate_pairs_bad generator (suc remaining) i (suc k) small bad =
      let shift : suc i + k ≡ i + suc k = omega arith in
      let later : generate_pairs E generator remaining (suc i) ≡ none =
        generate_pairs_bad generator remaining (suc i) k (omega arith)
          (ap (λ n. verifies E n (E.generate generator n)) shift ∙ bad) in
      elim (Bool-cases (verifies E i (E.generate generator i))) [
        | inl e ↦ rw (e, later) refl
        | inr e ↦ rw e refl
      ]

pub main_catch_done : {S : Type 0} (t : S) → main_catch (done t) ≡ finished t
unfolding main_catch
main_catch_done t = refl

module _ (F : FileSystem) (E : Ecdsa) where
  write_keys_separate :
      (o : Settings) (pairs : List KeyPair) (s : F.State) (a b : Bytes)
      → o.merge ≡ false
      → o.force ≡ true
      → o.private_key_output_folder ≡ a
      → o.public_key_output_folder ≡ b
      → write_keys F E o pairs s ≡ write_separate_keys F a b true pairs s
  unfolding write_keys
  write_keys_separate o pairs s a b merge force pa pb = rw (merge, force, pa, pb) refl

  pub run_generator-pairs_from :
      AreKeyPairs E
      → (o : Settings) (g : E.KeyPairGenerator) (s : F.State)
      → run_generator F E o (some g) s ≡ main_catch (write_keys F E o (pairs_from E g o.amount 0) s)
  unfolding run_generator write_generated
  run_generator-pairs_from keys o g s =
      ap (λ pairs. write_generated F E o pairs s) (generate_pairs-pairs_from E keys g o.amount 0)

  pub run_options_generator :
      (vm : VariablesMap) (g : E.KeyPairGenerator) (s : F.State)
      → vm.contains opt_help ≡ false
      → E.make_generator (read_settings vm).curve ≡ some g
      → run_options F E vm s ≡ run_generator F E (read_settings vm) (some g) s
  unfolding run_options
  run_options_generator vm g s no_help made = rw (run_options, no_help, made) refl

  -- Without --help and with a known curve, if one of the pairs that are asked for does not verify
  -- its own signature, keygen ends by the assertion and no file is touched, not even for the pairs
  -- before it.
  pub main_bad_pair :
      (vm : VariablesMap) (g : E.KeyPairGenerator) (s : F.State) (k : ℕ)
      → vm.contains opt_help ≡ false
      → E.make_generator (read_settings vm).curve ≡ some g
      → k < (read_settings vm).amount
      → verifies E k (E.generate g k) ≡ false
      → main F E (some vm) s ≡ assertion_failed s
  unfolding main run_generator write_generated
  main_bad_pair vm g s k no_help made small bad =
      run_options_generator vm g s no_help made
      ∙ ap (λ pairs. write_generated F E (read_settings vm) pairs s)
          (generate_pairs_bad E g (read_settings vm).amount 0 k small
            (ap (λ n. verifies E n (E.generate g n)) (omega arith) ∙ bad))

module _ (F : FileSystem) (L : IsLawful F) (E : Ecdsa) where
  -- With neither --help, --merge nor --force on the command line, a known curve and an --amount below
  -- 2 ^ 31, where the map holds registered options only, generated pairs verify, the folders "private"
  -- and "public" can be created and the numbered files open in them then, keygen ends regularly and
  -- has stored as many pairs as --amount asks for, or one, in numbered files in these folders.
  pub main_separate :
      AreKeyPairs E
      → (vm : VariablesMap) (g : E.KeyPairGenerator) (s : F.State)
      → Creates F (F.path private) (F.path public) s
      → OpensCreated F (F.path private) (F.path public) s
      → OnlyRegistered vm
      → override 1 (vm.number opt_amount) < 0x8000_0000
      → vm.contains opt_help ≡ false
      → vm.flag opt_merge ≡ none
      → vm.flag opt_force ≡ none
      → E.make_generator (override secp256k1 (vm.text opt_curve)) ≡ some g
      → (t : F.State) × (main F E (some vm) s ≡ finished t)
        × Stored F
            (F.path private)
            (F.path public)
            0
            (pairs_from E g (override 1 (vm.number opt_amount)) 0)
            t
  unfolding main read_settings override
  main_separate keys vm g s creates opens only few no_help no_merge no_force made =
      let pairs = pairs_from E g (override 1 (vm.number opt_amount)) 0 in
      let (t, e, stored) =
        write_separate_keys_forced F L private public pairs s
          (omega (arith, few, length-pairs_from E g (override 1 (vm.number opt_amount)) 0)) opens
          creates in
      let folders = read_settings_folders vm only in
      (
        t,
        run_options_generator F E vm g s no_help made
            ∙ run_generator-pairs_from F E keys (read_settings vm) g s
            ∙ ap main_catch (
                write_keys_separate F E (read_settings vm) pairs s private public
                  (ap (override false) no_merge) (ap (override true) no_force) folders.0 folders.1
                ∙ e)
            ∙ main_catch_done t,
        stored,
      )
