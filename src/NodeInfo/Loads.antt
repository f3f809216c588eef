-- ===== src/NodeInfo/Loads.antt =====
-- common/packets/node-info.cpp: getCPULoad, getGPULoad, getRAMLoad, getSwapLoad, and the totals.
-- A sum of long long is exact here, since its overflow is undefined.
use packet_distribution_syst.Prelude.{
  ℕ, ◌+◌, ◌*◌, ◌%◌, ◌^◌, none, some, pos, ltb, ltb_ℤ, ◌+ℤ◌, ◌-ℤ◌, to_int64, add_uint64, sub_uint64,
  if◌then◌else◌,
}
use packet_distribution_syst.NodeInfo.Stat.{read_cpu_times}
use packet_distribution_syst.NodeInfo.{
  Doubles, FileTime, SystemTimes, MemoryStatus, CpuTimes, SysInfo, CpuTicks, XswUsage, Platform,
  windows, linux, apple,
}

-- The low half and the shifted high half have no bit in common.
unfoldable pub quad_part : FileTime → ℕ
quad_part t = t.low_date_time + t.high_date_time * 2 ^ 32

module _ (D : Doubles) where
  unfoldable pub cpu_load_windows : SystemTimes → SystemTimes → D.Double
  unfolding quad_part
  cpu_load_windows last now =
      let sys_diff = sub_uint64 (quad_part now.kernel_time) (quad_part last.kernel_time) in
      let user_diff = sub_uint64 (quad_part now.user_time) (quad_part last.user_time) in
      let total = add_uint64 sys_diff user_diff in
      if ltb 0 total
      then D.div (D.mul (D.of_integer (pos user_diff)) D.literal_100) (D.of_integer (pos total))
      else D.literal_0

  unfoldable pub cpu_load_linux : CpuTimes → D.Double
  cpu_load_linux t =
      let idle_time = t.idle +ℤ t.iowait in
      let total_time = t.user +ℤ t.nice +ℤ t.system +ℤ idle_time +ℤ t.irq +ℤ t.softirq +ℤ t.steal in
      if ltb_ℤ (pos 0) total_time
      then D.div (D.mul D.literal_100 (D.of_integer idle_time)) (D.of_integer total_time)
      else D.literal_0

  -- The ticks are 32-bit, and so is their sum.
  unfoldable pub cpu_load_apple : CpuTicks → D.Double
  cpu_load_apple t =
      let total_ticks = (t.user + t.system + t.nice + t.idle) % 2 ^ 32 in
      if ltb 0 total_ticks
      then D.div (D.mul D.literal_100 (D.of_integer (pos t.idle))) (D.of_integer (pos total_ticks))
      else D.literal_0

  unfoldable pub get_cpu_load : Platform D → D.Double
  unfolding cpu_load_windows cpu_load_linux cpu_load_apple
  get_cpu_load (windows w) = cpu_load_windows w.last w.now
  get_cpu_load (linux l) = cpu_load_linux (read_cpu_times l.uninitialized l.stat_file)
  get_cpu_load (apple a) = elim a.cpu_ticks [ some t ↦ cpu_load_apple t | none ↦ D.literal_0 ]

  unfoldable pub get_gpu_load : Platform D → D.Double
  get_gpu_load _ = D.literal_0

  unfoldable pub ram_load_windows : MemoryStatus → D.Double
  ram_load_windows m =
      if ltb 0 m.total_phys
      then D.div (D.mul D.literal_100 (D.of_integer (pos (sub_uint64 m.total_phys m.avail_phys))))
          (D.of_integer (pos m.total_phys))
      else D.literal_0

  unfoldable pub ram_load_linux : SysInfo → D.Double
  ram_load_linux info =
      let total_phys_mem = to_int64 info.totalram in
      let free_phys_mem =
        to_int64 (add_uint64 (add_uint64 info.freeram info.bufferram) info.sharedram) in
      if ltb_ℤ (pos 0) total_phys_mem
      then D.div (D.mul D.literal_100 (D.of_integer (total_phys_mem -ℤ free_phys_mem)))
          (D.of_integer total_phys_mem)
      else D.literal_0

  -- The swap usage, on this platform.
  unfoldable pub ram_load_apple : XswUsage → D.Double
  ram_load_apple vmusage =
      if ltb 0 vmusage.xsu_total
      then D.div (D.mul D.literal_100 (D.of_integer (pos vmusage.xsu_used)))
          (D.of_integer (pos vmusage.xsu_total))
      else D.literal_0

  unfoldable pub get_ram_load : Platform D → D.Double
  unfolding ram_load_windows ram_load_linux ram_load_apple
  get_ram_load (windows w) = ram_load_windows w.memory
  get_ram_load (linux l) = ram_load_linux l.info
  get_ram_load (apple a) = elim a.swap_usage [ some u ↦ ram_load_apple u | none ↦ D.literal_0 ]

  unfoldable pub swap_load_windows : MemoryStatus → D.Double
  swap_load_windows m =
      if ltb 0 m.avail_page_file
      then D.div (D.mul D.literal_100 (D.of_integer (pos m.avail_page_file)))
          (D.of_integer (pos m.total_page_file))
      else D.literal_0

  unfoldable pub swap_load_linux : SysInfo → D.Double
  swap_load_linux info =
      let free_swap = to_int64 info.freeswap in
      if ltb_ℤ (pos 0) free_swap
      then D.div (D.mul D.literal_100 (D.of_integer free_swap)) (D.of_integer (pos info.totalswap))
      else D.literal_0

  unfoldable pub swap_load_apple : XswUsage → D.Double
  swap_load_apple vmusage =
      if ltb 0 vmusage.xsu_total
      then D.div (D.mul D.literal_100 (D.of_integer (pos vmusage.xsu_avail)))
          (D.of_integer (pos vmusage.xsu_total))
      else D.literal_0

  unfoldable pub get_swap_load : Platform D → D.Double
  unfolding swap_load_windows swap_load_linux swap_load_apple
  get_swap_load (windows w) = swap_load_windows w.memory
  get_swap_load (linux l) = swap_load_linux l.info
  get_swap_load (apple a) = elim a.swap_usage [ some u ↦ swap_load_apple u | none ↦ D.literal_0 ]

  pub get_total_ram_bytes : Platform D → ℕ
  get_total_ram_bytes (windows w) = w.memory.total_phys
  get_total_ram_bytes (linux l) = l.info.totalram
  get_total_ram_bytes (apple a) = a.mem_size

  pub get_total_swap_bytes : Platform D → ℕ
  get_total_swap_bytes (windows w) = w.memory.total_page_file
  get_total_swap_bytes (linux l) = l.info.totalswap
  get_total_swap_bytes (apple a) = elim a.swap_usage [ some u ↦ u.xsu_total | none ↦ 0 ]
