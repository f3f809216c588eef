-- ===== src/Text/Decimal.antt =====
-- Printing a number and reading it back.
use packet_distribution_syst.Prelude.{
  ℕ, zero, suc, ◌+◌, ◌*◌, ◌/◌, ◌%◌, ◌<◌, ◌≡◌, refl, ◌∙◌, ap, true, false, [], ◌∷◌, ◌++◌, All, ℤ,
  pos, negsuc, IsInt32, ltb, Bool-cases, inl, inr, arith,
}
use packet_distribution_syst.Archive.{Bytes}
use packet_distribution_syst.Text.{
  is_digit, emit, decimal, to_string, Stoi, value, scan, starts_with_digit, skip_space, positive,
  negative, magnitude, signed, stoi,
}

scan-digit : (acc d : ℕ) (s : Bytes) → d < 10 → scan acc ((b'0' + d) ∷ s) ≡ scan (acc * 10 + d) s
unfolding scan
scan-digit acc d s h = ground arith

-- Reading the digits of `n` restores it; `n < fuel` suffices.
scan-emit : (fuel n : ℕ) (out : Bytes) → n < fuel → scan 0 (emit fuel n out) ≡ scan n out
unfolding emit
scan-emit zero n out h = elim h [ ]
scan-emit (suc fuel) n out h = elim (Bool-cases (ltb n 10)) [
  | inl one ↦ rw one (scan-digit 0 n out (ground arith) ∙ ap (λ k. scan k out) (omega arith))
  | inr more ↦ rw more (
      scan-emit fuel (n / 10) ((b'0' + n % 10) ∷ out) (ground arith)
      ∙ scan-digit (n / 10) (n % 10) out (omega arith)
      ∙ ap (λ k. scan k out) (omega arith))
]

emit-starts_with_digit :
    (fuel n : ℕ) (out : Bytes) → n < fuel → starts_with_digit (emit fuel n out) ≡ true
unfolding emit starts_with_digit
emit-starts_with_digit zero n out h = elim h [ ]
emit-starts_with_digit (suc fuel) n out h = elim (Bool-cases (ltb n 10)) [
  | inl one ↦ rw one (ground arith)
  | inr more ↦ rw more (emit-starts_with_digit fuel (n / 10) ((b'0' + n % 10) ∷ out) (ground arith))
]

pub scan-decimal : (n : ℕ) → scan 0 (decimal n) ≡ n
unfolding decimal scan
scan-decimal n = scan-emit (suc n) n [] (omega arith)

pub decimal-starts_with_digit : (n : ℕ) → starts_with_digit (decimal n) ≡ true
unfolding decimal
decimal-starts_with_digit n = emit-starts_with_digit (suc n) n [] (omega arith)

emit-append : (fuel n : ℕ) (out rest : Bytes) → emit fuel n out ++ rest ≡ emit fuel n (out ++ rest)
unfolding emit
emit-append zero n out rest = refl
emit-append (suc fuel) n out rest = elim (Bool-cases (ltb n 10)) [
  | inl one ↦ rw one refl
  | inr more ↦ rw more (emit-append fuel (n / 10) ((b'0' + n % 10) ∷ out) rest)
]

scan_stops : (n : ℕ) (rest : Bytes) → starts_with_digit rest ≡ false → scan n rest ≡ n
unfolding scan starts_with_digit
scan_stops n [] h = refl
scan_stops n (c ∷ rest) h = ground arith

-- The digits of a number are told from what follows them.
pub scan-decimal-append :
    (n : ℕ) (rest : Bytes) → starts_with_digit rest ≡ false → scan 0 (decimal n ++ rest) ≡ n
unfolding decimal
scan-decimal-append n rest h =
    ap (scan 0) (emit-append (suc n) n [] rest)
    ∙ scan-emit (suc n) n rest (omega arith)
    ∙ scan_stops n rest h

emit-All :
    (fuel n : ℕ) (out : Bytes)
    → n < fuel
    → All (λ c. is_digit c ≡ true) out
    → All (λ c. is_digit c ≡ true) (emit fuel n out)
unfolding emit is_digit
emit-All zero n out h all = elim h [ ]
emit-All (suc fuel) n out h all = elim (Bool-cases (ltb n 10)) [
  | inl one ↦ rw one (ground arith, all)
  | inr more ↦ rw more (emit-All fuel (n / 10) _ (ground arith) (ground arith, all))
]

pub decimal-All : (n : ℕ) → All (λ c. is_digit c ≡ true) (decimal n)
unfolding decimal
decimal-All n = emit-All (suc n) n [] (omega arith) tt

magnitude-decimal : (sign : ℕ → Stoi) (n : ℕ) → magnitude sign (decimal n) ≡ sign n
unfolding magnitude
magnitude-decimal sign n = rw (decimal-starts_with_digit n, scan-decimal n) refl

-- No space to skip and no sign to read in front of a digit.
stoi-digits : (s : Bytes) → starts_with_digit s ≡ true → stoi s ≡ magnitude positive s
unfolding stoi signed skip_space starts_with_digit is_digit
stoi-digits [] h = cc
stoi-digits (c ∷ s) h = ground arith

stoi-negative : (s : Bytes) → stoi (b'-' ∷ s) ≡ magnitude negative s
unfolding stoi signed skip_space
stoi-negative s = refl

pub stoi-to_string : (z : ℤ) → IsInt32 z → stoi (to_string z) ≡ value z
unfolding to_string positive negative
stoi-to_string (pos n) h =
    stoi-digits (decimal n) (decimal-starts_with_digit n)
    ∙ magnitude-decimal positive n
    ∙ ground arith
stoi-to_string (negsuc n) h =
    stoi-negative (decimal (suc n)) ∙ magnitude-decimal negative (suc n) ∙ ground arith
