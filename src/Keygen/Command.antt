-- ===== src/Keygen/Command.antt =====
-- keygen/main.cc, main. boost::program_options, the key generation and the signatures are parameters.
pub mod Options
pub mod Generated
pub mod IntoOne
use packet_distribution_syst.Prelude.{
  ℕ, zero, suc, ◌+◌, ◌*◌, ◌%◌, Bool, true, false, ◌||◌, none, some, Option, List, [], ◌∷◌,
  if◌then◌else◌,
}
use packet_distribution_syst.Archive.{Bytes}
use packet_distribution_syst.Text.{same_text}
use packet_distribution_syst.Files.{FileSystem}
use packet_distribution_syst.Keygen.{KeyPair, Error, Result, done, thrown, overflow}
use packet_distribution_syst.Keygen.Merged.{write_merged_keys}
use packet_distribution_syst.Keygen.Separate.{write_separate_keys}
use Options.*

-- `po::variables_map`: what the command line gives for an option, by the option's name.
pub record VariablesMap : Type 0 where
  pub contains : Bytes → Bool
  pub text : Bytes → Option Bytes
  pub number : Bytes → Option ℕ
  pub flag : Bytes → Option Bool

pub record Settings : Type 0 where
  pub private_key_output_folder : Bytes
  pub public_key_output_folder : Bytes
  pub curve : Bytes
  pub amount : ℕ
  pub force : Bool
  pub merge : Bool
  pub public_key_merged_file : Bytes
  pub private_key_merged_file : Bytes

-- `if (vm.contains(...)) { x = vm[...].as<...>(); }`
unfoldable pub override {ℓ} : {A : Type ℓ} → A → Option A → A
override value none = value
override value (some given) = given

unfoldable pub read_settings : VariablesMap → Settings
unfolding override
read_settings vm = record {
  private_key_output_folder = override private (vm.text opt_private_output);
  public_key_output_folder = override public (vm.text opt_public_output);
  curve = override secp256k1 (vm.text opt_curve);
  amount = override 1 (vm.number opt_amount);
  force = override true (vm.flag opt_force);
  merge = override false (vm.flag opt_merge);
  public_key_merged_file = override [] (vm.text opt_public_merged);
  private_key_merged_file = override [] (vm.text opt_private_merged);
}

-- `ECDSA`, `SHA` and std::rand. A generator's pairs, the random numbers and the nonces of the
-- signatures are numbered in the order of the calls.
pub record Ecdsa : Type 1 where
  pub KeyPairGenerator : Type 0
  -- none for a curve that it does not know, which throws
  pub make_generator : Bytes → Option KeyPairGenerator
  pub generate : KeyPairGenerator → ℕ → KeyPair
  pub compute_hash : Bytes → Bytes
  pub sign_hash : Bytes → Bytes → ℕ → Bytes
  pub verify_hash : Bytes → Bytes → Bytes → Bool
  pub rand : ℕ → ℕ

-- How the program ends: by the usage message, by an exception that main prints, by a failed
-- AlwaysAssert, or regularly; or it runs into the overflow of an int. Only the writers change files.
pub data Run (S : Type 0) : Type 0 where
  usage : S → Run S
  printed : S → Run S
  assertion_failed : S → Run S
  finished : S → Run S
  overflowed : Run S

unfoldable pub main_catch : {S : Type 0} → Result S → Run S
main_catch (done s) = finished s
main_catch (thrown e s) = printed s
main_catch overflow = overflowed

module _ (E : Ecdsa) where
  -- `std::ranges::generate` over `count` bytes, from the random number `next` on.
  unfoldable pub random_bytes : ℕ → ℕ → Bytes
  random_bytes zero next = []
  random_bytes (suc count) next = (E.rand next % 0xFF) ∷ random_bytes count (suc next)

  -- Whether the pair number `i` verifies a signature of its own.
  unfoldable pub verifies : ℕ → KeyPair → Bool
  unfolding random_bytes
  verifies i pair =
      let hash = E.compute_hash (random_bytes 4096 (4096 * i)) in
      let signature = E.sign_hash pair.private_key hash i in
      E.verify_hash pair.public_key hash signature

  -- The loop from `i` on for `remaining` rounds; none if the assertion fails.
  unfoldable pub generate_pairs : E.KeyPairGenerator → ℕ → ℕ → Option (List KeyPair)
  unfolding verifies
  generate_pairs generator zero i = some []
  generate_pairs generator (suc remaining) i =
      let pair = E.generate generator i in
      let rest = generate_pairs generator remaining (suc i) in
      if verifies i pair then elim rest [ none ↦ none | some pairs ↦ some (pair ∷ pairs) ] else none

module _ (F : FileSystem) (E : Ecdsa) where
  unfoldable pub write_keys : Settings → List KeyPair → F.State → Result F.State
  write_keys o key_pairs s =
      if o.merge
      then write_merged_keys F o.private_key_merged_file o.public_key_merged_file o.force key_pairs
          s
      else write_separate_keys F o.private_key_output_folder o.public_key_output_folder o.force
          key_pairs s

  unfoldable pub write_generated : Settings → Option (List KeyPair) → F.State → Run F.State
  unfolding write_keys main_catch
  write_generated o none s = assertion_failed s
  write_generated o (some key_pairs) s = main_catch (write_keys o key_pairs s)

  unfoldable pub run_generator : Settings → Option E.KeyPairGenerator → F.State → Run F.State
  unfolding write_generated generate_pairs
  run_generator o none s = printed s
  run_generator o (some generator) s = write_generated o (generate_pairs E generator o.amount 0) s

  unfoldable pub run_options : VariablesMap → F.State → Run F.State
  unfolding run_generator read_settings
  run_options vm s =
      if vm.contains opt_help
      then usage s
      else run_generator (read_settings vm) (E.make_generator (read_settings vm).curve) s

  -- `store(parse_command_line(...), vm)` throws on what it does not accept.
  unfoldable pub main : Option VariablesMap → F.State → Run F.State
  unfolding run_options
  main none s = printed s
  main (some vm) s = run_options vm s
