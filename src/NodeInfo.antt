-- ===== src/NodeInfo.antt =====
-- common/packets/node-info.hpp and what common/packets/node-info.cpp asks of the operating system.
-- The answers of the system calls are the fields of one record for each platform; `none` is a call
-- that reports failure.
pub mod Disk
pub mod Stat
pub mod Loads
pub mod Shares
pub mod Drives
pub mod Mounts
pub mod Counts
pub mod Sockets
pub mod Response
use packet_distribution_syst.Prelude.{ℕ, suc, ◌≡◌, Bool, Option, List, ℤ, pos}
use packet_distribution_syst.Archive.{Bytes}

-- The operations on double that the code uses. An integer of any type converts by its value.
pub record Doubles : Type 1 where
  pub Double : Type 0
  pub literal_0 : Double
  pub literal_100 : Double
  pub of_integer : ℤ → Double
  pub mul : Double → Double → Double
  pub div : Double → Double → Double

-- 100.0 * 0 / n is 0.0 for a positive n.
abbrev pub IsExactAtZero : Doubles → Type 0
IsExactAtZero D =
    (n : ℕ)
    → D.div (D.mul D.literal_100 (D.of_integer (pos 0))) (D.of_integer (pos (suc n))) ≡ D.literal_0

-- FILETIME
pub record FileTime : Type 0 where
  pub low_date_time : ℕ
  pub high_date_time : ℕ

-- GetSystemTimes
pub record SystemTimes : Type 0 where
  pub idle_time : FileTime
  pub kernel_time : FileTime
  pub user_time : FileTime

-- MEMORYSTATUSEX
pub record MemoryStatus : Type 0 where
  pub total_phys : ℕ
  pub avail_phys : ℕ
  pub total_page_file : ℕ
  pub avail_page_file : ℕ

pub record Windows : Type 0 where
  pub last : SystemTimes
  pub now : SystemTimes
  pub memory : MemoryStatus
  pub logical_drives : ℕ
  -- GetDiskFreeSpaceExA: the available and the total bytes
  pub disk_free_space : Bytes → Option (ℕ × ℕ)
  pub tick_count : ℕ
  -- EnumProcesses: the bytes returned
  pub processes : Option ℕ
  pub handle_count : Option ℕ

-- The variables of getCPULoad that are used after sscanf.
pub record CpuTimes : Type 0 where
  pub user : ℤ
  pub nice : ℤ
  pub system : ℤ
  pub idle : ℤ
  pub iowait : ℤ
  pub irq : ℤ
  pub softirq : ℤ
  pub steal : ℤ

-- struct sysinfo
pub record SysInfo : Type 0 where
  pub uptime : ℤ
  pub totalram : ℕ
  pub freeram : ℕ
  pub sharedram : ℕ
  pub bufferram : ℕ
  pub totalswap : ℕ
  pub freeswap : ℕ

-- Directories and files of a POSIX system.
pub record Posix : Type 0 where
  -- opendir and readdir: the names in a directory
  pub entries : Bytes → Option (List Bytes)
  -- lstat: whether S_ISSOCK holds
  pub is_socket : Bytes → Option Bool
  -- what a std::ifstream on "/proc" reads
  pub proc_text : Bytes
  -- the text of the mounts file
  pub mounts_file : Option Bytes

pub record Linux (D : Doubles) : Type 0 where
  -- the text of /proc/stat
  pub stat_file : Bytes
  -- what the variables of getCPULoad hold before sscanf
  pub uninitialized : CpuTimes
  pub info : SysInfo
  pub posix : Posix
  pub get_available_disk_memory : Bytes → D.Double
  pub get_total_disk_memory : Bytes → D.Double

-- cpu_ticks
pub record CpuTicks : Type 0 where
  pub user : ℕ
  pub system : ℕ
  pub nice : ℕ
  pub idle : ℕ

-- struct xsw_usage
pub record XswUsage : Type 0 where
  pub xsu_total : ℕ
  pub xsu_used : ℕ
  pub xsu_avail : ℕ

pub record Apple (D : Doubles) : Type 0 where
  pub cpu_ticks : Option CpuTicks
  pub swap_usage : Option XswUsage
  pub posix : Posix
  pub get_available_disk_memory : Bytes → D.Double
  pub get_total_disk_memory : Bytes → D.Double
  -- kern.boottime and the current time, in seconds
  pub boottime : Option ℤ
  pub current_time : ℤ
  -- what stands in `totalMemory` behind the call for hw.memsize
  pub mem_size : ℕ
  -- proc_listallpids
  pub all_pids : ℤ

pub data Platform (D : Doubles) : Type 0 where
  windows : Windows → Platform D
  linux : Linux D → Platform D
  apple : Apple D → Platform D
