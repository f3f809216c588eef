-- ===== src/NodeInfo/Stat.antt =====
-- common/packets/node-info.cpp, the reading of /proc/stat in getCPULoad on Linux. A number past the
-- range of long long is not defined; a variable that sscanf does not reach has whatever value it had.
pub mod Scanned
use packet_distribution_syst.Prelude.{
  ℕ, zero, suc, Bool, none, some, Option, List, [], ◌∷◌, ℤ, pos, negsuc, ◌==◌, if◌then◌else◌,
}
use packet_distribution_syst.Archive.{Bytes}
use packet_distribution_syst.Text.{scan, is_digit, starts_with_digit, skip_space}
use packet_distribution_syst.NodeInfo.{CpuTimes}

-- `std::getline`
unfoldable pub getline : Bytes → Bytes
getline [] = []
getline (c ∷ text) = let rest = getline text in if c == b'\n' then [] else c ∷ rest

unfoldable pub skip_digits : Bytes → Bytes
unfolding is_digit
skip_digits [] = []
skip_digits (c ∷ s) = if is_digit c then skip_digits s else c ∷ s

unfoldable pub minus : ℕ → ℤ
minus zero = pos 0
minus (suc n) = negsuc n

unfoldable pub scan_digits : (ℕ → ℤ) → Bytes → Option (ℤ × Bytes)
unfolding scan starts_with_digit skip_digits
scan_digits sign s = if starts_with_digit s then some (sign (scan 0 s), skip_digits s) else none

unfoldable pub scan_signed : Bytes → Option (ℤ × Bytes)
unfolding scan_digits minus
scan_signed [] = none
scan_signed (c ∷ s) =
    if c == b'-'
    then scan_digits minus s
    else if c == b'+'
    then scan_digits pos s
    else scan_digits pos (c ∷ s)

-- `%lld`
unfoldable pub scan_lld : Bytes → Option (ℤ × Bytes)
unfolding scan_signed skip_space
scan_lld s = scan_signed (skip_space s)

-- So many `%lld` one after the other: the numbers up to the first that does not match.
unfoldable pub scan_llds : ℕ → Bytes → List ℤ
unfolding scan_lld
scan_llds zero s = []
scan_llds (suc count) s = elim (scan_lld s) [
  | none ↦ []
  | some (z, rest) ↦ z ∷ scan_llds count rest
]

-- The literal "cpu" at the start of the format, and the numbers behind it.
unfoldable pub scan_stat : Bytes → List ℤ
unfolding scan_llds
scan_stat (c ∷ p ∷ u ∷ s) =
    if c == b'c' then (if p == b'p' then (if u == b'u' then scan_llds 10 s else []) else []) else []
scan_stat _ = []

-- The value of a variable: the number that was matched for it, if there is one.
unfoldable pub assigned : List ℤ → ℕ → ℤ → ℤ
assigned [] i before = before
assigned (z ∷ zs) zero before = z
assigned (z ∷ zs) (suc i) before = assigned zs i before

-- `guest` and `guest_nice` are read and not used.
unfoldable pub times_of : CpuTimes → List ℤ → CpuTimes
unfolding assigned
times_of before zs = record {
  user = assigned zs 0 before.user;
  nice = assigned zs 1 before.nice;
  system = assigned zs 2 before.system;
  idle = assigned zs 3 before.idle;
  iowait = assigned zs 4 before.iowait;
  irq = assigned zs 5 before.irq;
  softirq = assigned zs 6 before.softirq;
  steal = assigned zs 7 before.steal;
}

unfoldable pub read_cpu_times : CpuTimes → Bytes → CpuTimes
unfolding getline scan_stat times_of
read_cpu_times before text = times_of before (scan_stat (getline text))
