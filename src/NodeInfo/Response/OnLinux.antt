-- ===== src/NodeInfo/Response/OnLinux.antt =====
-- The response that a Linux node makes.
use packet_distribution_syst.Prelude.{
  ℕ, ◌+◌, ◌-◌, ◌^◌, ◌≤◌, ◌<◌, ◌≡◌, ◌∙◌, ap, some, List, All, pos,
}
use packet_distribution_syst.Archive.{Bytes}
use packet_distribution_syst.Text.{starts_with_digit}
use packet_distribution_syst.NodeInfo.{Doubles, IsExactAtZero, Linux, linux}
use packet_distribution_syst.NodeInfo.Loads.{
  cpu_load_linux, get_cpu_load, get_ram_load, get_swap_load,
}
use packet_distribution_syst.NodeInfo.Shares.{Counters, all_time, percent, linux_loads}
use packet_distribution_syst.NodeInfo.Stat.{read_cpu_times}
use packet_distribution_syst.NodeInfo.Stat.Scanned.{stat_text, read_cpu_times-stat_text}
use packet_distribution_syst.Archive.{Bytes}
use packet_distribution_syst.NodeInfo.Mounts.{get_disks_load_linux, strstr, dev}
use packet_distribution_syst.NodeInfo.Mounts.Listed.{
  Mount, IsMount, spell, kept, get_disks_load-spell,
}
use packet_distribution_syst.NodeInfo.Counts.{proc_self_fd, get_open_file_handle_count}
use packet_distribution_syst.NodeInfo.Counts.Counted.{
  count_if, IsEntry, handle_count_linux-count_if,
}
use packet_distribution_syst.NodeInfo.Sockets.{proc, get_open_socket_count}
use packet_distribution_syst.NodeInfo.Sockets.Found.{
  pid_paths, is_open_socket, socket_count_posix-paths,
}
use packet_distribution_syst.NodeInfo.Response.{get_disks_load, construct_response}

-- What a running system answers: the counters as the kernel prints them, no more free than there is, a
-- mounts file of lines that fit, and directories that open.
pub record IsRunning {D : Doubles} (l : Linux D) (counters : Counters) (mounts : List Mount)
    (fds pids : List Bytes) : Type 0 where
  pub guest : ℕ
  pub guest_nice : ℕ
  pub processors : Bytes
  pub counted : l.stat_file ≡ stat_text counters guest guest_nice processors
  pub ram : l.info.totalram < 2 ^ 63
  pub free_ram : l.info.freeram + l.info.bufferram + l.info.sharedram ≤ l.info.totalram
  pub swap : l.info.totalswap < 2 ^ 63
  pub free_swap : l.info.freeswap ≤ l.info.totalswap
  pub mounts_text : l.posix.mounts_file ≡ some (spell mounts)
  pub mounts_fit : All IsMount mounts
  pub fds_open : l.posix.entries proc_self_fd ≡ some fds
  pub fds_named : All IsEntry fds
  pub pids_open : l.posix.entries proc ≡ some pids

module _ (D : Doubles) where
  -- On a running Linux system, with doubles for which 100.0 * 0 / n is 0.0, the response reports
  -- as CPU load the share of the time spent idle or waiting, as RAM load that of the memory in
  -- use, as swap load that of the free swap; it counts the numbers in /proc/self/fd and the
  -- descriptors that lstat calls sockets, and lists the disks on devices with "/dev/" in their
  -- names.
  pub construct_response_linux :
      IsExactAtZero D
      → (l : Linux D) (counters : Counters) (mounts : List Mount) (fds pids : List Bytes)
      → IsRunning l counters mounts fds pids
      → let response = construct_response D (linux l) in
        (response.cpu_load ≡ percent D (counters.idle + counters.iowait) (all_time counters))
        × (response.ram_load
            ≡ percent D
                (l.info.totalram - (l.info.freeram + l.info.bufferram + l.info.sharedram))
                l.info.totalram)
        × (response.swap_load ≡ percent D l.info.freeswap l.info.totalswap)
        × (response.opened_files ≡ pos (count_if starts_with_digit fds))
        × (response.socket_count ≡ pos (count_if (is_open_socket l.posix) (pid_paths l.posix pids)))
        × (response.disks_load
            ≡ kept D l.get_available_disk_memory l.get_total_disk_memory
                (λ device. strstr device dev)
                mounts)
  unfolding construct_response get_disks_load get_cpu_load get_ram_load get_swap_load
      get_open_file_handle_count get_open_socket_count
  construct_response_linux exact l counters mounts fds pids running =
      let loads =
        linux_loads D exact counters l.info running.ram running.free_ram running.swap
          running.free_swap in
      (
        ap (λ text. cpu_load_linux D (read_cpu_times l.uninitialized text)) running.counted
            ∙ ap (cpu_load_linux D) (
                read_cpu_times-stat_text l.uninitialized counters running.guest running.guest_nice
                  running.processors)
            ∙ loads.0,
        loads.1,
        loads.2,
        handle_count_linux-count_if l.posix fds running.fds_open running.fds_named,
        socket_count_posix-paths l.posix pids running.pids_open,
        ap (λ text. get_disks_load_linux D l.get_available_disk_memory l.get_total_disk_memory text)
              running.mounts_text
            ∙ (get_disks_load-spell D l.get_available_disk_memory l.get_total_disk_memory mounts
                running.mounts_fit).0,
      )
