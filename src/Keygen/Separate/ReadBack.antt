-- ===== src/Keygen/Separate/ReadBack.antt =====
-- The keys that keygen writes are the keys that `read_key` of common/common.hpp loads.
use mathlib.Core.Path.{subst}
use mathlib.Core.Option.{some-injective}
use packet_distribution_syst.Prelude.{
  ℕ, zero, suc, ◌+◌, ◌≡◌, ap, ◌∙◌, Bool, none, some, Option, List, [], ◌∷◌, arith,
}
use packet_distribution_syst.Archive.{Bytes}
use packet_distribution_syst.Files.{FileSystem}
use packet_distribution_syst.Files.Laws.{IsLawful}
use packet_distribution_syst.Common.ReadKey.{key, Location, read_key, read_key-content}
use packet_distribution_syst.Keygen.{KeyPair, done}
use packet_distribution_syst.Keygen.Separate.{private_name, public_name, write_separate_keys}
use packet_distribution_syst.Keygen.Separate.Round.{OpensCreated}
use packet_distribution_syst.Keygen.Separate.Contents.{Stored, write_separate_keys-Rounds}

abbrev pub get_elem? : List KeyPair → ℕ → Option KeyPair
get_elem? [] i = none
get_elem? (pair ∷ pairs) zero = some pair
get_elem? (pair ∷ pairs) (suc i) = get_elem? pairs i

module _ (F : FileSystem) (L : IsLawful F) (location : Location F.FilePath) where
  abbrev pub ReadsBack : F.FilePath → F.FilePath → ℕ → KeyPair → F.State → Type 0
  ReadsBack private_folder public_folder i pair t =
      (read_key F location t (F.join private_folder (private_name i)) ≡ key pair.private_key)
      × (read_key F location t (F.join public_folder (public_name i)) ≡ key pair.public_key)

  Stored-ReadsBack :
      (private_folder public_folder : F.FilePath) (i : ℕ) (pairs : List KeyPair) (t : F.State)
      → Stored F private_folder public_folder i pairs t
      → (k : ℕ) (pair : KeyPair) → get_elem? pairs k ≡ some pair
      → ReadsBack private_folder public_folder (suc i + k) pair t
  unfolding Stored
  Stored-ReadsBack private_folder public_folder i [] t stored k pair e = cc
  Stored-ReadsBack private_folder public_folder i (first ∷ pairs) t ((hp, hq), _) zero pair e =
      let same : first ≡ pair = some-injective first pair e in
      subst (λ n. ReadsBack private_folder public_folder n pair t) (omega arith)
        (
          read_key-content F location t _ _ (hp ∙ ap (λ x. some x.private_key) same),
          read_key-content F location t _ _ (hq ∙ ap (λ x. some x.public_key) same),
        )
  Stored-ReadsBack private_folder public_folder i (first ∷ pairs) t (_, stored) (suc k) pair e =
      subst (λ n. ReadsBack private_folder public_folder n pair t) (omega arith)
        (Stored-ReadsBack private_folder public_folder (suc i) pairs t stored k pair e)

  -- After a successful call, where the numbered files open once both folders are created, reading the
  -- file of any pair by its number gives back the key.
  pub read_key-write_separate_keys :
      (private_key_output_folder public_key_output_folder : Bytes)
      → (force : Bool) (pairs : List KeyPair) (s t : F.State)
      → OpensCreated F (F.path private_key_output_folder) (F.path public_key_output_folder) s
      → write_separate_keys F private_key_output_folder public_key_output_folder force pairs s
        ≡ done t
      → (k : ℕ) (pair : KeyPair) → get_elem? pairs k ≡ some pair
      → ReadsBack
          (F.path private_key_output_folder)
          (F.path public_key_output_folder)
          (suc k)
          pair
          t
  read_key-write_separate_keys private_name' public_name' force pairs s t opens e k pair at_k =
      let stored =
        rw e at (write_separate_keys-Rounds F L private_name' public_name' force pairs s opens) in
      subst (λ n. ReadsBack (F.path private_name') (F.path public_name') n pair t) (omega arith)
        (Stored-ReadsBack (F.path private_name') (F.path public_name') 0 pairs t stored.0 k pair
          at_k)
