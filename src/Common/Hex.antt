-- ===== src/Common/Hex.antt =====
-- common/common.hpp, bytes_to_hex_str
use mathlib.Core.Bool.{false≢true}
use packet_distribution_syst.Prelude.{
  tabulates, tabulates_at, Option-cases, inl, inr, ==_iff, sym, false, append_assoc, append-nil, ℕ,
  zero, suc, ◌+◌, ◌-◌, ◌*◌, ◌/◌, ◌%◌, ◌^◌, ◌<◌, ◌≡◌, refl, ◌∙◌, ap, Bool, true, ◌&&◌, Option, none,
  some, [], ◌∷◌, ◌++◌, length, All, leb, ◌==◌, if◌then◌else◌, arith,
}
use packet_distribution_syst.Archive.{Bytes, ◌>>=◌}

-- "0123456789abcdef"
abbrev hex_values : Bytes
hex_values =
    b'0' ∷ b'1' ∷ b'2' ∷ b'3' ∷ b'4' ∷ b'5' ∷ b'6' ∷ b'7' ∷ b'8' ∷ b'9' ∷ b'a' ∷ b'b' ∷ b'c' ∷ b'd'
    ∷ b'e' ∷ b'f' ∷ []

-- `s[i]`; past the end of a std::string stands a null character, and then nothing is defined.
char_at : Bytes → ℕ → ℕ
char_at [] i = 0
char_at (c ∷ s) zero = c
char_at (c ∷ s) (suc i) = char_at s i

loop : Bytes → Bytes → Bytes
unfolding char_at
loop [] rv = rv
loop (val ∷ bytes) rv =
    loop bytes (rv ++ (char_at hex_values (val / 2 ^ 4) ∷ char_at hex_values (val % 2 ^ 4) ∷ []))

pub bytes_to_hex_str : Bytes → Bytes
unfolding loop
bytes_to_hex_str byte_view = loop byte_view []

-- A reader for the text, independent of the table.
nibble : ℕ → Option ℕ
nibble c =
    if leb b'0' c && leb c b'9'
    then some (c - b'0')
    else if leb b'a' c && leb c b'f'
    then some (c - b'a' + 10)
    else none

pub of_hex : Bytes → Option Bytes
unfolding nibble
of_hex [] = some []
of_hex (c ∷ []) = none
of_hex (c ∷ d ∷ s) =
    nibble c >>= λ hi. nibble d >>= λ lo. of_hex s >>= λ bytes. some ((hi * 16 + lo) ∷ bytes)

-- The table and the reader agree on a digit's value.
agrees : ℕ → Bool
agrees v = elim (nibble (char_at hex_values v)) [ none ↦ false | some n ↦ n == v ]

agrees→nibble : (v : ℕ) → agrees v ≡ true → nibble (char_at hex_values v) ≡ some v
unfolding agrees
agrees→nibble v h = elim (Option-cases (nibble (char_at hex_values v))) [
  | inl e ↦ absurd (false≢true (rw (e, agrees) at h))
  | inr (n, e) ↦ rw e (ap some ((==_iff n v).0 (rw (e, agrees) at h)))
]

agrees_table : tabulates agrees 16 ≡ true
unfolding tabulates agrees nibble char_at
agrees_table = refl

nibble-char_at : (v : ℕ) → v < 16 → nibble (char_at hex_values v) ≡ some v
nibble-char_at v h = agrees→nibble v (tabulates_at agrees 16 v agrees_table h)

abbrev pub IsByte : ℕ → Type 0
IsByte b = b < 2 ^ 8

-- The two digits of each byte, in order.
spell : Bytes → Bytes
spell [] = []
spell (val ∷ bytes) =
    char_at hex_values (val / 2 ^ 4) ∷ char_at hex_values (val % 2 ^ 4) ∷ spell bytes

loop-spell : (bytes rv : Bytes) → loop bytes rv ≡ rv ++ spell bytes
unfolding loop spell
loop-spell [] rv = sym (append-nil rv)
loop-spell (val ∷ bytes) rv = loop-spell bytes _ ∙ append_assoc rv _ (spell bytes)

of_hex-spell : (bytes : Bytes) → All IsByte bytes → of_hex (spell bytes) ≡ some bytes
unfolding of_hex spell
of_hex-spell [] h = refl
of_hex-spell (val ∷ bytes) (small, h) =
    rw
      (
        nibble-char_at (val / 2 ^ 4) (omega arith),
        nibble-char_at (val % 2 ^ 4) (omega arith),
        of_hex-spell bytes h,
      )
      (ap (λ b. some (b ∷ bytes)) (omega arith))

length-spell : (bytes : Bytes) → length (spell bytes) ≡ 2 * length bytes
unfolding spell
length-spell [] = refl
length-spell (val ∷ bytes) = omega (arith, length-spell bytes)

-- The text of any bytes, each below 256, has two characters for each, and reads back as those
-- bytes.
pub of_hex-bytes_to_hex_str :
    (bytes : Bytes)
    → All IsByte bytes
    → (length (bytes_to_hex_str bytes) ≡ 2 * length bytes)
      × (of_hex (bytes_to_hex_str bytes) ≡ some bytes)
unfolding bytes_to_hex_str
of_hex-bytes_to_hex_str bytes h =
    rw (loop-spell bytes []) (length-spell bytes, of_hex-spell bytes h)
