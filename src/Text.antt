-- ===== src/Text.antt =====
-- What the program uses of the C++ standard library on text: `std::to_string(int)`, `std::stoi`,
-- `isdigit` and equality. A std::string is the list of its bytes.
pub mod Decimal
use packet_distribution_syst.Prelude.{
  ℕ, zero, suc, ◌+◌, ◌-◌, ◌*◌, ◌/◌, ◌%◌, Bool, true, false, ◌&&◌, ◌||◌, [], ◌∷◌, ℤ, pos, negsuc,
  ltb, leb, ◌==◌, if◌then◌else◌,
}
use packet_distribution_syst.Archive.{Bytes}

unfoldable pub is_digit : ℕ → Bool
is_digit c = leb b'0' c && leb c b'9'

-- The digits of `n` in front of `out`, with fuel: see `Decimal` for how much is enough.
unfoldable pub emit : ℕ → ℕ → Bytes → Bytes
emit zero n out = out
emit (suc fuel) n out =
    let rest = emit fuel (n / 10) ((b'0' + n % 10) ∷ out) in
    if ltb n 10 then (b'0' + n) ∷ out else rest

unfoldable pub decimal : ℕ → Bytes
unfolding emit
decimal n = emit (suc n) n []

unfoldable pub to_string : ℤ → Bytes
unfolding decimal
to_string (pos n) = decimal n
to_string (negsuc n) = b'-' ∷ decimal (suc n)

pub data StoiError : Type 0 where
  invalid_argument out_of_range : StoiError

pub data Stoi : Type 0 where
  value : ℤ → Stoi
  throws : StoiError → Stoi

-- The value of the longest run of digits, behind the digits that are read.
unfoldable pub scan : ℕ → Bytes → ℕ
unfolding is_digit
scan acc [] = acc
scan acc (c ∷ s) = let rest = scan (acc * 10 + (c - b'0')) s in if is_digit c then rest else acc

unfoldable pub starts_with_digit : Bytes → Bool
unfolding is_digit
starts_with_digit [] = false
starts_with_digit (c ∷ s) = is_digit c

unfoldable pub skip_space : Bytes → Bytes
skip_space [] = []
skip_space (c ∷ s) = if c == 32 || leb 9 c && leb c 13 then skip_space s else c ∷ s

-- The magnitude with its sign, as an `int`.
unfoldable pub positive : ℕ → Stoi
positive n = if ltb n 0x8000_0000 then value (pos n) else throws out_of_range

unfoldable pub negative : ℕ → Stoi
negative zero = value (pos 0)
negative (suc n) = if ltb n 0x8000_0000 then value (negsuc n) else throws out_of_range

unfoldable pub magnitude : (ℕ → Stoi) → Bytes → Stoi
unfolding scan starts_with_digit
magnitude sign s = if starts_with_digit s then sign (scan 0 s) else throws invalid_argument

unfoldable pub signed : Bytes → Stoi
unfolding magnitude positive negative
signed [] = throws invalid_argument
signed (c ∷ s) =
    if c == b'-'
    then magnitude negative s
    else if c == b'+'
    then magnitude positive s
    else magnitude positive (c ∷ s)

unfoldable pub stoi : Bytes → Stoi
unfolding signed skip_space
stoi s = signed (skip_space s)

-- strcmp(a, b) == 0, and == of std::string
unfoldable pub same_text : Bytes → Bytes → Bool
same_text [] [] = true
same_text [] (d ∷ b) = false
same_text (c ∷ a) [] = false
same_text (c ∷ a) (d ∷ b) = c == d && same_text a b
