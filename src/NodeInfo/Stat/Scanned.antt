-- ===== src/NodeInfo/Stat/Scanned.antt =====
-- What the kernel prints is what is read.
use packet_distribution_syst.Prelude.{
  ℕ, suc, ◌≡◌, refl, ◌∙◌, ap, false, true, none, some, List, [], ◌∷◌, ◌++◌, All, pos, arith, map,
  length, All-append,
}
use packet_distribution_syst.Archive.{Bytes}
use packet_distribution_syst.Text.{decimal, is_digit, starts_with_digit, skip_space}
use packet_distribution_syst.Text.Decimal.{
  scan-decimal-append, decimal-All, decimal-starts_with_digit,
}
use packet_distribution_syst.NodeInfo.{CpuTimes}
use packet_distribution_syst.NodeInfo.Mounts.Lines.{InLine}
use packet_distribution_syst.NodeInfo.Shares.{Counters, times}
use packet_distribution_syst.NodeInfo.Stat.{
  getline, skip_digits, scan_digits, scan_signed, scan_lld, scan_llds, scan_stat, assigned,
  times_of, read_cpu_times,
}

-- The numbers in decimal, with a space in front of each.
unfoldable pub printed : List ℕ → Bytes
printed [] = []
printed (n ∷ numbers) = 32 ∷ (decimal n ++ printed numbers)

skip_digits-append :
    (digits rest : Bytes)
    → All (λ c. is_digit c ≡ true) digits
    → starts_with_digit rest ≡ false
    → skip_digits (digits ++ rest) ≡ rest
unfolding skip_digits starts_with_digit
skip_digits-append [] [] all h = refl
skip_digits-append [] (c ∷ rest) all h = rw h refl
skip_digits-append (c ∷ digits) rest (this, all) h = rw this (skip_digits-append digits rest all h)

printed_stops : (numbers : List ℕ) → starts_with_digit (printed numbers) ≡ false
unfolding printed starts_with_digit is_digit
printed_stops [] = refl
printed_stops (n ∷ numbers) = refl

-- A digit is neither a space nor a sign.
scan_lld-digits : (s : Bytes) → starts_with_digit s ≡ true → scan_lld (32 ∷ s) ≡ scan_digits pos s
unfolding scan_lld scan_signed skip_space starts_with_digit is_digit
scan_lld-digits [] h = cc
scan_lld-digits (c ∷ s) h = ground arith

starts_append : (s rest : Bytes) → starts_with_digit s ≡ true → starts_with_digit (s ++ rest) ≡ true
unfolding starts_with_digit
starts_append [] rest h = cc
starts_append (c ∷ s) rest h = h

scan_digits-decimal :
    (n : ℕ) (rest : Bytes)
    → starts_with_digit rest ≡ false
    → scan_digits pos (decimal n ++ rest) ≡ some (pos n, rest)
unfolding scan_digits
scan_digits-decimal n rest h =
    rw
      (
        scan_digits,
        starts_append (decimal n) rest (decimal-starts_with_digit n),
        scan-decimal-append n rest h,
        skip_digits-append (decimal n) rest (decimal-All n) h,
      )
      refl

scan_lld-decimal :
    (n : ℕ) (rest : Bytes)
    → starts_with_digit rest ≡ false
    → scan_lld (32 ∷ (decimal n ++ rest)) ≡ some (pos n, rest)
scan_lld-decimal n rest h =
    scan_lld-digits (decimal n ++ rest)
      (starts_append (decimal n) rest (decimal-starts_with_digit n))
    ∙ scan_digits-decimal n rest h

scan_llds-printed :
    (numbers : List ℕ) → scan_llds (length numbers) (printed numbers) ≡ map pos numbers
unfolding scan_llds printed
scan_llds-printed [] = refl
scan_llds-printed (n ∷ numbers) =
    ap (λ o. elim o [ none ↦ [] | some (z, rest) ↦ z ∷ scan_llds (length numbers) rest ])
      (scan_lld-decimal n (printed numbers) (printed_stops numbers))
    ∙ ap (λ zs. pos n ∷ zs) (scan_llds-printed numbers)

scan_llds-space : (count : ℕ) (s : Bytes) → scan_llds (suc count) (32 ∷ s) ≡ scan_llds (suc count) s
unfolding scan_llds scan_lld skip_space
scan_llds-space count s = refl

is_digit-InLine : (c : ℕ) → is_digit c ≡ true → InLine c
unfolding is_digit
is_digit-InLine c h = ground arith

All-InLine : (s : Bytes) → All (λ c. is_digit c ≡ true) s → All InLine s
All-InLine [] h = tt
All-InLine (c ∷ s) (this, h) = (is_digit-InLine c this, All-InLine s h)

printed-InLine : (numbers : List ℕ) → All InLine (printed numbers)
unfolding printed
printed-InLine [] = tt
printed-InLine (n ∷ numbers) = (
  refl,
  All-append InLine (decimal n) (printed numbers) (All-InLine (decimal n) (decimal-All n))
      (printed-InLine numbers),
)

getline-line : (line rest : Bytes) → All InLine line → getline (line ++ b'\n' ∷ rest) ≡ line
unfolding getline
getline-line [] rest h = refl
getline-line (c ∷ line) rest (this, h) = rw (this, getline-line line rest h) refl

-- The counters with `guest` and `guest_nice` behind them.
abbrev pub all_counters : Counters → ℕ → ℕ → List ℕ
all_counters c guest guest_nice =
    c.user ∷ c.nice ∷ c.system ∷ c.idle ∷ c.iowait ∷ c.irq ∷ c.softirq ∷ c.steal ∷ guest
    ∷ guest_nice ∷ []

-- The text of /proc/stat: "cpu", two spaces, the numbers, and the lines of the single processors.
abbrev pub stat_text : Counters → ℕ → ℕ → Bytes → Bytes
stat_text c guest guest_nice rest =
    (b'c' ∷ b'p' ∷ b'u' ∷ 32 ∷ printed (all_counters c guest guest_nice)) ++ b'\n' ∷ rest

scan_stat-printed :
    (c : Counters) (guest guest_nice : ℕ)
    → scan_stat (b'c' ∷ b'p' ∷ b'u' ∷ 32 ∷ printed (all_counters c guest guest_nice))
      ≡ map pos (all_counters c guest guest_nice)
unfolding scan_stat
scan_stat-printed c guest guest_nice =
    scan_llds-space 9 (printed (all_counters c guest guest_nice))
    ∙ scan_llds-printed (all_counters c guest guest_nice)

-- The counters that the kernel prints are the values of the variables.
pub read_cpu_times-stat_text :
    (before : CpuTimes) (c : Counters) (guest guest_nice : ℕ) (rest : Bytes)
    → read_cpu_times before (stat_text c guest guest_nice rest) ≡ times c
unfolding read_cpu_times times_of assigned
read_cpu_times-stat_text before c guest guest_nice rest =
    ap (λ line. times_of before (scan_stat line))
      (getline-line (b'c' ∷ b'p' ∷ b'u' ∷ 32 ∷ printed (all_counters c guest guest_nice)) rest
        (refl, (refl, (refl, (refl, printed-InLine (all_counters c guest guest_nice))))))
    ∙ ap (times_of before) (scan_stat-printed c guest guest_nice)
