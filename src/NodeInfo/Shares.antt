-- ===== src/NodeInfo/Shares.antt =====
-- What the load numbers are shares of.
use packet_distribution_syst.Prelude.{
  ℕ, ◌+◌, ◌-◌, ◌^◌, ◌≤◌, ◌<◌, ◌≡◌, refl, pos, ltb_ℤ, pos_add, pos_sub, to_int64-small,
  add_uint64-small, sub_uint64-small, IsUint64, ltb, if◌then◌else◌, arith, zero, suc,
}
use packet_distribution_syst.NodeInfo.{
  CpuTimes, Doubles, IsExactAtZero, SystemTimes, MemoryStatus, SysInfo,
}
use packet_distribution_syst.NodeInfo.Loads.{
  quad_part, cpu_load_windows, cpu_load_linux, ram_load_windows, ram_load_linux, swap_load_windows,
  swap_load_linux,
}

-- The counters of /proc/stat, none of which is negative.
pub record Counters : Type 0 where
  pub user : ℕ
  pub nice : ℕ
  pub system : ℕ
  pub idle : ℕ
  pub iowait : ℕ
  pub irq : ℕ
  pub softirq : ℕ
  pub steal : ℕ

abbrev pub times : Counters → CpuTimes
times c = record {
  user = pos c.user;
  nice = pos c.nice;
  system = pos c.system;
  idle = pos c.idle;
  iowait = pos c.iowait;
  irq = pos c.irq;
  softirq = pos c.softirq;
  steal = pos c.steal;
}

abbrev pub all_time : Counters → ℕ
all_time c = c.user + c.nice + c.system + (c.idle + c.iowait) + c.irq + c.softirq + c.steal

module _ (D : Doubles) where
  -- A hundred times the part over the whole, and 0.0 of nothing.
  abbrev pub percent : ℕ → ℕ → D.Double
  percent part whole =
      if ltb 0 whole
      then D.div (D.mul D.literal_100 (D.of_integer (pos part))) (D.of_integer (pos whole))
      else D.literal_0

  positive_test : (n : ℕ) → ltb_ℤ (pos 0) (pos n) ≡ ltb 0 n
  positive_test n = ground arith

  cpu_load_linux-percent :
      (c : Counters) → cpu_load_linux D (times c) ≡ percent (c.idle + c.iowait) (all_time c)
  unfolding cpu_load_linux
  cpu_load_linux-percent c =
      rw
        (
          pos_add c.user c.nice,
          pos_add (c.user + c.nice) c.system,
          pos_add c.idle c.iowait,
          pos_add (c.user + c.nice + c.system) (c.idle + c.iowait),
          pos_add (c.user + c.nice + c.system + (c.idle + c.iowait)) c.irq,
          pos_add (c.user + c.nice + c.system + (c.idle + c.iowait) + c.irq) c.softirq,
          pos_add (c.user + c.nice + c.system + (c.idle + c.iowait) + c.irq + c.softirq) c.steal,
          positive_test,
        )
        refl

  ram_load_linux-percent :
      (info : SysInfo)
      → info.totalram < 2 ^ 63
      → info.freeram + info.bufferram + info.sharedram ≤ info.totalram
      → ram_load_linux D info
        ≡ percent (info.totalram - (info.freeram + info.bufferram + info.sharedram)) info.totalram
  unfolding ram_load_linux
  ram_load_linux-percent info fits less =
      rw
        (
          to_int64-small info.totalram fits,
          add_uint64-small info.freeram info.bufferram (omega arith),
          add_uint64-small (info.freeram + info.bufferram) info.sharedram (omega arith),
          to_int64-small (info.freeram + info.bufferram + info.sharedram) (omega arith),
          pos_sub info.totalram _ less,
          positive_test,
        )
        refl

  -- A guard on the part instead of the whole gives the same number.
  guarded_by_part :
      IsExactAtZero D
      → (part whole : ℕ) → part ≤ whole
      → (if ltb 0 part
          then D.div (D.mul D.literal_100 (D.of_integer (pos part))) (D.of_integer (pos whole))
          else D.literal_0)
        ≡ percent part whole
  guarded_by_part exact zero zero less = refl
  guarded_by_part exact zero (suc whole) less = ground (arith, exact whole)
  guarded_by_part exact (suc part) zero less = absurd (omega arith)
  guarded_by_part exact (suc part) (suc whole) less = ground arith

  swap_load_linux-percent :
      IsExactAtZero D
      → (info : SysInfo) → info.totalswap < 2 ^ 63
      → info.freeswap ≤ info.totalswap
      → swap_load_linux D info ≡ percent info.freeswap info.totalswap
  unfolding swap_load_linux
  swap_load_linux-percent exact info fits less =
      rw (to_int64-small info.freeswap (omega arith), positive_test)
        (guarded_by_part exact info.freeswap info.totalswap less)

  -- On Linux, if no more is free than there is and 100.0 * 0 / n is 0.0: the CPU load is the share
  -- of the time spent idle or waiting for a device, the RAM load that of the memory in use, the
  -- swap load that of the free swap.
  pub linux_loads :
      IsExactAtZero D
      → (counters : Counters) (info : SysInfo) → info.totalram < 2 ^ 63
      → info.freeram + info.bufferram + info.sharedram ≤ info.totalram
      → info.totalswap < 2 ^ 63
      → info.freeswap ≤ info.totalswap
      → (cpu_load_linux D (times counters)
          ≡ percent (counters.idle + counters.iowait) (all_time counters))
        × (ram_load_linux D info
            ≡ percent
                (info.totalram - (info.freeram + info.bufferram + info.sharedram))
                info.totalram)
        × (swap_load_linux D info ≡ percent info.freeswap info.totalswap)
  linux_loads exact counters info h₁ h₂ h₃ h₄ = (
    cpu_load_linux-percent counters,
    ram_load_linux-percent info h₁ h₂,
    swap_load_linux-percent exact info h₃ h₄,
  )

  -- On Windows, if no more is available than there is and 100.0 * 0 / n is 0.0: the RAM load is
  -- the share of the memory in use, and the swap load that of the page file that is available.
  pub windows_loads :
      IsExactAtZero D
      → (memory : MemoryStatus) → IsUint64 memory.total_phys
      → memory.avail_phys ≤ memory.total_phys
      → memory.avail_page_file ≤ memory.total_page_file
      → (ram_load_windows D memory
          ≡ percent (memory.total_phys - memory.avail_phys) memory.total_phys)
        × (swap_load_windows D memory ≡ percent memory.avail_page_file memory.total_page_file)
  unfolding ram_load_windows swap_load_windows
  windows_loads exact memory fits phys page = (
    rw (sub_uint64-small memory.total_phys memory.avail_phys fits phys) refl,
    guarded_by_part exact memory.avail_page_file memory.total_page_file page,
  )

  -- On Windows, if the clocks run forward by less than 2 ^ 64 together, the CPU load divides the
  -- time in user mode between the two readings by the sum of the kernel and the user time between
  -- them, and is 0.0 when that is none.
  pub cpu_load_windows_between :
      (last now : SystemTimes)
      → let kernel = quad_part now.kernel_time - quad_part last.kernel_time in
        let user = quad_part now.user_time - quad_part last.user_time in
        IsUint64 (quad_part now.kernel_time)
        → IsUint64 (quad_part now.user_time)
        → quad_part last.kernel_time ≤ quad_part now.kernel_time
        → quad_part last.user_time ≤ quad_part now.user_time
        → IsUint64 (kernel + user)
        → cpu_load_windows D last now ≡ (
            if ltb 0 (kernel + user)
            then D.div
                (D.mul (D.of_integer (pos user)) D.literal_100)
                (D.of_integer (pos (kernel + user)))
            else D.literal_0)
  unfolding cpu_load_windows
  cpu_load_windows_between last now fits_kernel fits_user kernel user fits =
      rw
        (
          sub_uint64-small (quad_part now.kernel_time) (quad_part last.kernel_time) fits_kernel
              kernel,
          sub_uint64-small (quad_part now.user_time) (quad_part last.user_time) fits_user user,
          add_uint64-small _ _ fits,
        )
        refl
