-- ===== src/Keygen/Separate/Names.antt =====
-- The file names of WriteSeparateKeys do not collide.
use packet_distribution_syst.Prelude.{
  ℕ, zero, suc, ◌≡◌, ◌≢◌, refl, sym, ap, ◌∙◌, inl, true, [], ◌∷◌, ◌++◌, All, All-append, pos, arith,
}
use packet_distribution_syst.Archive.{Bytes}
use packet_distribution_syst.Text.{is_digit, starts_with_digit, to_string, decimal, scan}
use packet_distribution_syst.Text.Decimal.{scan-decimal-append, decimal-All}
use packet_distribution_syst.Files.{FileSystem}
use packet_distribution_syst.Files.Laws.{IsPlain, IsLawful}
use packet_distribution_syst.Keygen.Separate.{private_name, public_name}

abbrev suffix : Bytes
suffix = b'.' ∷ b'p' ∷ b'e' ∷ b'm' ∷ []

digits-IsPlain : (digits : Bytes) → All (λ c. is_digit c ≡ true) digits → All IsPlain digits
digits-IsPlain [] h = tt
digits-IsPlain (c ∷ digits) h = (inl h.0, digits-IsPlain digits h.1)

number_lem : (i : ℕ) → scan 0 (to_string (pos i) ++ suffix) ≡ i
unfolding to_string starts_with_digit is_digit
number_lem i = scan-decimal-append i suffix refl

to_string-IsPlain : (i : ℕ) → All IsPlain (to_string (pos i) ++ suffix)
unfolding to_string
to_string-IsPlain i =
    All-append IsPlain (decimal i) suffix (digits-IsPlain (decimal i) (decimal-All i)) (omega arith)

pub private_name-IsPlain : (i : ℕ) → All IsPlain (private_name i)
unfolding private_name
private_name-IsPlain i =
    All-append IsPlain (b'p' ∷ b'r' ∷ b'i' ∷ b'v' ∷ b'a' ∷ b't' ∷ b'e' ∷ []) _ (omega arith)
      (to_string-IsPlain i)

pub public_name-IsPlain : (i : ℕ) → All IsPlain (public_name i)
unfolding public_name
public_name-IsPlain i =
    All-append IsPlain (b'p' ∷ b'u' ∷ b'b' ∷ b'l' ∷ b'i' ∷ b'c' ∷ []) _ (omega arith)
      (to_string-IsPlain i)

-- The text behind the first `k` characters.
behind : ℕ → Bytes → Bytes
behind zero s = s
behind (suc k) [] = []
behind (suc k) (c ∷ s) = behind k s

pub private_name-injective : (i j : ℕ) → private_name i ≡ private_name j → i ≡ j
unfolding private_name behind
private_name-injective i j e = sym (number_lem i) ∙ ap (λ s. scan 0 (behind 7 s)) e ∙ number_lem j

pub public_name-injective : (i j : ℕ) → public_name i ≡ public_name j → i ≡ j
unfolding public_name behind
public_name-injective i j e = sym (number_lem i) ∙ ap (λ s. scan 0 (behind 6 s)) e ∙ number_lem j

pub private_name-ne-public_name : (i j : ℕ) → private_name i ≢ public_name j
unfolding private_name public_name
private_name-ne-public_name i j = ground arith

module _ (F : FileSystem) (L : IsLawful F) (private_folder public_folder : F.FilePath) where
  abbrev pub private_path : ℕ → F.FilePath
  private_path i = F.join private_folder (private_name i)

  abbrev pub public_path : ℕ → F.FilePath
  public_path i = F.join public_folder (public_name i)

  pub private_path-injective : (i j : ℕ) → private_path i ≡ private_path j → i ≡ j
  private_path-injective i j e =
      private_name-injective i j
        (L.join-name _ _ _ _ (private_name-IsPlain i) (private_name-IsPlain j) e)

  pub public_path-injective : (i j : ℕ) → public_path i ≡ public_path j → i ≡ j
  public_path-injective i j e =
      public_name-injective i j
        (L.join-name _ _ _ _ (public_name-IsPlain i) (public_name-IsPlain j) e)

  pub private_path-ne-public_path : (i j : ℕ) → private_path i ≢ public_path j
  private_path-ne-public_path i j e =
      private_name-ne-public_name i j
        (L.join-name _ _ _ _ (private_name-IsPlain i) (public_name-IsPlain j) e)
