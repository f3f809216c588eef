-- ===== src/Tests/Loads.antt =====
-- The load numbers and the drives at concrete inputs.
use packet_distribution_syst.Prelude.{
  ℕ, ◌*◌, ◌/◌, ◌≡◌, refl, true, false, Option, none, some, [], ◌∷◌, pos_part, ◌==◌, if◌then◌else◌,
  arith,
}
use packet_distribution_syst.Archive.{Bytes}
use packet_distribution_syst.NodeInfo.{
  Doubles, IsExactAtZero, SystemTimes, MemoryStatus, CpuTicks, XswUsage,
}
use packet_distribution_syst.NodeInfo.Loads.{
  quad_part, cpu_load_windows, ram_load_windows, swap_load_windows,
}
use packet_distribution_syst.NodeInfo.Shares.{windows_loads, cpu_load_windows_between}
use packet_distribution_syst.NodeInfo.Drives.{
  probe, get_disks_load_windows, mask, listed, get_disks_load_windows-mask,
}

-- Numbers in the place of doubles.
abbrev pub whole_doubles : Doubles
whole_doubles = record {
  Double = ℕ;
  literal_0 = 0;
  literal_100 = 100;
  of_integer = pos_part;
  mul = λ a b. a * b;
  div = λ a b. if a == 0 then 0 else a / b;
}

pub whole_doubles-IsExactAtZero : IsExactAtZero whole_doubles
whole_doubles-IsExactAtZero n = refl

abbrev memory : MemoryStatus
memory = record { total_phys = 400; avail_phys = 100; total_page_file = 50; avail_page_file = 20 }

windows_loads_example :
    (ram_load_windows whole_doubles memory ≡ 75) × (swap_load_windows whole_doubles memory ≡ 40)
windows_loads_example =
    windows_loads whole_doubles whole_doubles-IsExactAtZero memory (omega arith) (omega arith)
      (omega arith)

abbrev system_times : ℕ → ℕ → SystemTimes
system_times kernel user = record {
  idle_time = record { low_date_time = 0; high_date_time = 0 };
  kernel_time = record { low_date_time = kernel; high_date_time = 1 };
  user_time = record { low_date_time = user; high_date_time = 0 };
}

cpu_load_windows_between_example :
    cpu_load_windows whole_doubles (system_times 10 5) (system_times 40 15) ≡ 25
unfolding quad_part
cpu_load_windows_between_example =
    cpu_load_windows_between whole_doubles (system_times 10 5) (system_times 40 15) (omega arith)
      (omega arith) (omega arith) (omega arith) (omega arith)

abbrev ticks : CpuTicks
ticks = record { user = 10; system = 10; nice = 0; idle = 60 }

abbrev usage : XswUsage
usage = record { xsu_total = 8; xsu_used = 2; xsu_avail = 6 }

-- Drive D has no medium.
abbrev free_space : Bytes → Option (ℕ × ℕ)
free_space (c ∷ _) = if c == b'D' then none else some (c, 100)
free_space [] = none

get_disks_load_windows-mask_example :
    get_disks_load_windows whole_doubles free_space 12
    ≡ record { name = b'C' ∷ b':' ∷ b'\\' ∷ []; available_bytes = 67; total_bytes = 100 } ∷ []
unfolding mask listed probe
get_disks_load_windows-mask_example =
    get_disks_load_windows-mask whole_doubles free_space (false ∷ false ∷ true ∷ true ∷ [])
      (omega arith)
