-- ===== src/Archive.antt =====
-- The Boost archive that every `serialize` template of common/ is written for. Boost is not part of
-- the repository: how it lays out a primitive value is the parameter `Codec`. A `serialize` takes
-- the object by reference and is instantiated at a saving and at a loading archive; here it is one
-- function of the archive's mode, which returns the object as the archive leaves it.
pub mod Transfers
pub mod Enumeration
pub mod Layout
use packet_distribution_syst.Prelude.{
  ℕ, ◌≡◌, ◌++◌, Bool, List, Option, none, some, ℤ, IsInt32, IsInt64, IsUint64,
}

abbrev pub Bytes : Type 0
Bytes = List ℕ

-- A primitive type of the archive: what is written for a value, and how it is read. The law is what
-- the code relies on: a value that the type can hold is read back, and no more is consumed.
pub record Primitive (A : Type 0) (Fits : A → Type 0) : Type 0 where
  pub put : A → Bytes
  pub get : Bytes → Option (A × Bytes)
  pub get-put : (a : A) (rest : Bytes) → Fits a → get (put a ++ rest) ≡ some (a, rest)

abbrev pub Any : {A : Type 0} → A → Type 0
Any _ = Unit

pub record Codec : Type 1 where
  pub Double : Type 0
  pub bool : Primitive Bool Any
  pub int32 : Primitive ℤ IsInt32
  pub int64 : Primitive ℤ IsInt64
  pub uint64 : Primitive ℕ IsUint64
  pub double : Primitive Double Any
  -- std::string, as its bytes
  pub text : Primitive Bytes Any

-- `Archive::is_saving::value`
pub data Mode : Type 0 where
  saving loading : Mode

-- The object and the archive's buffer before, and both after; `none` is an archive exception.
abbrev pub Serializer : Type 0 → Type 0
Serializer A = Mode → A → Bytes → Option (A × Bytes)

-- `ar & x` at a primitive type.
unfoldable pub primitive : {A : Type 0} {Fits : A → Type 0} → Primitive A Fits → Serializer A
primitive p saving x out = some (x, out ++ p.put x)
primitive p loading x input = p.get input

infixl 5 ◌>>=◌
abbrev pub ◌>>=◌ {ℓ κ} : {A : Type ℓ} {B : Type κ} → Option A → (A → Option B) → Option B
none >>= f = none
some a >>= f = f a

-- `ar & this->member;`, with the member's serializer and how it is read and written.
unfoldable pub member : {S A : Type 0} → Serializer A → (S → A) → (S → A → S) → Serializer S
member s read write ar this buffer =
    s ar (read this) buffer >>= λ (x, rest). some (write this x, rest)

-- One statement after the other.
infixr 6 ◌⨾◌
unfoldable pub ◌⨾◌ : {S : Type 0} → Serializer S → Serializer S → Serializer S
◌⨾◌ s t ar this buffer = s ar this buffer >>= λ (this', rest). t ar this' rest
