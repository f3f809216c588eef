-- ===== src/NodeInfo/Response.antt =====
-- common/packets/node-info.hpp, NodeInformationResponse, and its constructor in
-- common/packets/node-info.cpp. The system does not change between the calls.
pub mod OnLinux
use packet_distribution_syst.Prelude.{ℕ, List, ℤ}
use packet_distribution_syst.NodeInfo.{Doubles, Platform, windows, linux, apple}
use packet_distribution_syst.NodeInfo.Disk.{DiskInfo}
use packet_distribution_syst.NodeInfo.Loads.{
  get_cpu_load, get_gpu_load, get_ram_load, get_swap_load, get_total_ram_bytes,
  get_total_swap_bytes,
}
use packet_distribution_syst.NodeInfo.Drives.{get_disks_load_windows}
use packet_distribution_syst.NodeInfo.Mounts.{get_disks_load_linux, get_disks_load_apple}
use packet_distribution_syst.NodeInfo.Counts.{
  get_system_uptime_ms, get_process_count, get_open_file_handle_count,
}
use packet_distribution_syst.NodeInfo.Sockets.{get_open_socket_count}

pub record NodeInformationResponse (Double : Type 0) : Type 0 where
  pub cpu_load : Double
  pub gpu_load : Double
  pub ram_load : Double
  pub swap_load : Double
  pub uptime : ℕ
  pub process_count : ℤ
  pub ram_bytes : ℕ
  pub swap_bytes : ℕ
  pub opened_files : ℤ
  pub socket_count : ℤ
  pub disks_load : List (DiskInfo Double)

module _ (D : Doubles) where
  unfoldable pub get_disks_load : Platform D → List (DiskInfo D.Double)
  get_disks_load (windows w) = get_disks_load_windows D w.disk_free_space w.logical_drives
  get_disks_load (linux l) =
      get_disks_load_linux D l.get_available_disk_memory l.get_total_disk_memory l.posix.mounts_file
  get_disks_load (apple a) =
      get_disks_load_apple D a.get_available_disk_memory a.get_total_disk_memory a.posix.mounts_file

  unfoldable pub construct_response : Platform D → NodeInformationResponse D.Double
  unfolding get_disks_load
  construct_response platform = record {
    cpu_load = get_cpu_load D platform;
    gpu_load = get_gpu_load D platform;
    ram_load = get_ram_load D platform;
    swap_load = get_swap_load D platform;
    uptime = get_system_uptime_ms D platform;
    process_count = get_process_count D platform;
    ram_bytes = get_total_ram_bytes D platform;
    swap_bytes = get_total_swap_bytes D platform;
    opened_files = get_open_file_handle_count D platform;
    socket_count = get_open_socket_count D platform;
    disks_load = get_disks_load platform;
  }
