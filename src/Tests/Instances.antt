-- ===== src/Tests/Instances.antt =====
-- An archive layout, a cryptography and a file system that meet the assumptions of the model.
use mathlib.Core.Logic.{ite}
use mathlib.Core.Option.{some-injective}
use packet_distribution_syst.Prelude.{
  ◌||◌, ◌⊎◌, inl, inr, Bool-cases, if◌then◌else◌, ◌∙◌, ℕ, zero, suc, ◌+◌, ◌≡◌, refl, sym, ap, Bool,
  true, false, ◌&&◌, Option, none, some, [], ◌∷◌, ◌++◌, ℤ, pos, negsuc, length, if◌then◌else◌, ◌==◌,
  arith,
}
use native.Mathlib.Decide.{ℕ_discrete}
use packet_distribution_syst.Archive.{Bytes, Primitive, Codec}
use packet_distribution_syst.Packets.Crypto.{Crypto, IsKeyAgreement, IsKeyPair}
use packet_distribution_syst.Files.{FileSystem}
use packet_distribution_syst.Files.Laws.{IsLawful}

abbrev get_number : Bytes → Option (ℕ × Bytes)
get_number [] = none
get_number (n ∷ rest) = some (n, rest)

abbrev number : {Fits : ℕ → Type 0} → Primitive ℕ Fits
number = record { put = λ n. n ∷ []; get = get_number; get-put = λ n rest _. refl }

abbrev put_integer : ℤ → Bytes
put_integer (pos n) = 0 ∷ n ∷ []
put_integer (negsuc n) = 1 ∷ n ∷ []

abbrev get_integer : Bytes → Option (ℤ × Bytes)
get_integer (zero ∷ n ∷ rest) = some (pos n, rest)
get_integer (suc zero ∷ n ∷ rest) = some (negsuc n, rest)
get_integer _ = none

pub get-put_integer : (z : ℤ) (rest : Bytes) → get_integer (put_integer z ++ rest) ≡ some (z, rest)
get-put_integer (pos n) rest = refl
get-put_integer (negsuc n) rest = refl

abbrev integer : {Fits : ℤ → Type 0} → Primitive ℤ Fits
integer = record {
  put = put_integer;
  get = get_integer;
  get-put = λ z rest _. get-put_integer z rest;
}

abbrev put_bool : Bool → Bytes
put_bool b = (if b then 1 else 0) ∷ []

abbrev get_bool : Bytes → Option (Bool × Bytes)
get_bool (zero ∷ rest) = some (false, rest)
get_bool (suc n ∷ rest) = some (true, rest)
get_bool [] = none

pub get-put_bool : (b : Bool) (rest : Bytes) → get_bool (put_bool b ++ rest) ≡ some (b, rest)
get-put_bool true rest = refl
get-put_bool false rest = refl

abbrev split : ℕ → Bytes → Option (Bytes × Bytes)
split zero rest = some ([], rest)
split (suc n) [] = none
split (suc n) (c ∷ s) = elim (split n s) [ none ↦ none | some (a, rest) ↦ some (c ∷ a, rest) ]

pub split-append : (a rest : Bytes) → split (length a) (a ++ rest) ≡ some (a, rest)
split-append [] rest = refl
split-append (c ∷ a) rest = rw (split-append a rest, split) refl

abbrev get_text : Bytes → Option (Bytes × Bytes)
get_text [] = none
get_text (n ∷ rest) = split n rest

abbrev pub flat_codec : Codec
flat_codec = record {
  Double = ℕ;
  bool = record { put = put_bool; get = get_bool; get-put = λ b rest _. get-put_bool b rest };
  int32 = integer;
  int64 = integer;
  uint64 = number;
  double = number;
  text = record {
    put = λ s. length s ∷ s;
    get = get_text;
    get-put = λ s rest _. split-append s rest;
  };
}

abbrev pub eq_bytes : Bytes → Bytes → Bool
eq_bytes [] [] = true
eq_bytes (a ∷ s) (b ∷ t) = a == b && eq_bytes s t
eq_bytes _ _ = false

eq_bytes_refl : (s : Bytes) → eq_bytes s s ≡ true
eq_bytes_refl [] = refl
eq_bytes_refl (a ∷ s) = ground (arith, eq_bytes_refl s)

abbrev add_to_key : ℕ → Bytes → Option Bytes
add_to_key a (b ∷ []) = some ((a + b) ∷ [])
add_to_key a _ = none

-- The key pair of a helper is its number, a public key one byte, a secret the sum of two; a signature is the hash.
abbrev pub sum_crypto : Crypto
sum_crypto = record {
  DiffieHellmanHelper = ℕ;
  get_public_key = λ a. a ∷ [];
  get_shared_secret = add_to_key;
  compute_hash = λ bytes. bytes;
  Signer = Unit {0};
  Verifier = Unit {0};
  sign_hash = λ _ hash _. hash;
  verify_hash = λ _. eq_bytes;
  response_unique_id = 1 ∷ [];
}

pub sum_crypto-IsKeyAgreement : IsKeyAgreement sum_crypto
sum_crypto-IsKeyAgreement a b = ((a + b) ∷ [], refl, ap (λ (n : ℕ). some (n ∷ [])) (omega arith))

pub sum_crypto-IsKeyPair : IsKeyPair sum_crypto tt tt
sum_crypto-IsKeyPair hash nonce = eq_bytes_refl hash

abbrev is_nonempty : Bytes → Bool
is_nonempty [] = false
is_nonempty (c ∷ s) = true

abbrev is_some : Option Bytes → Bool
is_some none = false
is_some (some b) = true

-- Files by folder and name; a stream opens under every name but the empty one.
abbrev pub FolderAndName : Type 0
FolderAndName = Bytes × Bytes

pub same_path : Discrete FolderAndName
same_path = hlevel ℕ_discrete

abbrev pub Contents : Type 0
Contents = FolderAndName → Option Bytes

abbrev pub flat_files : FileSystem
flat_files = record {
  FilePath = FolderAndName;
  State = Contents;
  same = same_path;
  path = λ name. (name, []);
  join = λ folder name. (folder.0, name);
  exists = λ s p. is_some (s p);
  content = λ s p. s p;
  can_open = λ s p. is_nonempty p.0;
  write = λ s p b q. ite (same_path q p) (some b) (s q);
  is_directory = λ s p. true;
  create_directories = λ s folder. some s;
}

abbrev file_in : Option Contents → FolderAndName → Option Bytes
file_in none p = none
file_in (some s) p = s p

pub flat_files-IsLawful : IsLawful flat_files
flat_files-IsLawful = record {
  content-write = λ s p q b. refl;
  can_open-write = λ s p q b. refl;
  content-create_directories = λ s t folder p e. sym (ap (λ o. file_in o p) e);
  is_directory-create_directories = λ s t folder e. refl;
  create_directories-again = λ s folder h. refl;
  is_directory-kept = λ s t folder other e h. refl;
  is_directory-write = λ s p folder b h. h;
  join-name = λ f g m n _ _ e. ap (λ p. p.1) e;
}

-- Files in folders, which have to be created before a stream opens in them.
abbrev pub Tree : Type 0
Tree = (Bytes → Bool) × Contents

abbrev with_folder : Bytes → (Bytes → Bool) → Bytes → Bool
with_folder folder has name = eq_bytes name folder || has name

abbrev pub folder_files : FileSystem
folder_files = record {
  FilePath = FolderAndName;
  State = Tree;
  same = same_path;
  path = λ name. (name, []);
  join = λ folder name. (folder.0, name);
  exists = λ s p. is_some (s.1 p);
  content = λ s p. s.1 p;
  is_directory = λ s p. s.0 p.0;
  can_open = λ s p. s.0 p.0;
  write = λ s p b. (s.0, λ q. ite (same_path q p) (some b) (s.1 q));
  create_directories =
      λ s folder. if s.0 folder.0 then some s else some (with_folder folder.0 s.0, s.1);
}

folder_cases :
    (s t : Tree) (folder : FolderAndName)
    → folder_files.create_directories s folder ≡ some t
    → ((s.0 folder.0 ≡ true) × (s ≡ t))
      ⊎ ((s.0 folder.0 ≡ false) × ((with_folder folder.0 s.0, s.1) ≡ t))
folder_cases s t folder e = elim (Bool-cases (s.0 folder.0)) [
  | inl there ↦ inl (there, some-injective _ _ (rw there at e))
  | inr missing ↦ inr (missing, some-injective _ _ (rw missing at e))
]

pub folder_files-IsLawful : IsLawful folder_files
folder_files-IsLawful = record {
  content-write = λ s p q b. refl;
  can_open-write = λ s p q b. refl;
  content-create_directories = λ s t folder p e. elim (folder_cases s t folder e) [
    | inl (there, same) ↦ sym (ap (λ w. w.1 p) same)
    | inr (missing, same) ↦ sym (ap (λ w. w.1 p) same)
  ];
  is_directory-create_directories = λ s t folder e. elim (folder_cases s t folder e) [
    | inl (there, same) ↦ sym (ap (λ w. w.0 folder.0) same) ∙ there
    | inr (missing, same) ↦
        sym (ap (λ w. w.0 folder.0) same) ∙ ap (λ b. b || s.0 folder.0) (eq_bytes_refl folder.0)
  ];
  create_directories-again = λ s folder h. rw h refl;
  is_directory-kept = λ s t folder other e h. elim (folder_cases s t folder e) [
    | inl (there, same) ↦ sym (ap (λ w. w.0 other.0) same) ∙ h
    | inr (missing, same) ↦ sym (ap (λ w. w.0 other.0) same) ∙ rw h (ground arith)
  ];
  is_directory-write = λ s p folder b h. h;
  join-name = λ f g m n _ _ e. ap (λ p. p.1) e;
}
