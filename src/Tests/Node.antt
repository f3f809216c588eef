-- ===== src/Tests/Node.antt =====
-- The node information at concrete inputs.
use packet_distribution_syst.Prelude.{
  ℕ, ◌≡◌, refl, inl, inr, false, Option, none, some, List, [], ◌∷◌, ◌++◌, All, pos, if◌then◌else◌,
  arith,
}
use packet_distribution_syst.Archive.{Bytes}
use packet_distribution_syst.Text.{to_string, decimal, emit, scan, is_digit, starts_with_digit}
use packet_distribution_syst.NodeInfo.{SysInfo, Posix, Linux, linux}
use packet_distribution_syst.NodeInfo.Shares.{Counters, times}
use packet_distribution_syst.NodeInfo.Stat.Scanned.{stat_text}
use packet_distribution_syst.NodeInfo.Mounts.{
  disk_info, strstr, get_disks_load_linux, get_disks_load_apple,
}
use packet_distribution_syst.NodeInfo.Mounts.Listed.{
  Mount, IsMount, spell, kept, get_disks_load-spell,
}
use packet_distribution_syst.NodeInfo.Counts.{proc_self_fd, dot, dot_dot, handle_count_linux}
use packet_distribution_syst.NodeInfo.Counts.Counted.{
  IsEntry, count_if, spaced, handle_count_linux-count_if,
}
use packet_distribution_syst.NodeInfo.Sockets.{
  answers_socket, fd_path, proc_path, atoi, proc, socket_count_posix,
}
use packet_distribution_syst.NodeInfo.Sockets.Found.{
  directory_paths, fd_paths, pid_paths, socket_count_posix-paths,
}
use packet_distribution_syst.NodeInfo.Response.{construct_response}
use packet_distribution_syst.NodeInfo.Response.OnLinux.{IsRunning, construct_response_linux}
use packet_distribution_syst.Tests.Loads.{whole_doubles, whole_doubles-IsExactAtZero}
use packet_distribution_syst.Tests.Instances.{eq_bytes}

abbrev counters : Counters
counters = record {
  user = 20;
  nice = 0;
  system = 5;
  idle = 70;
  iowait = 5;
  irq = 0;
  softirq = 0;
  steal = 0;
}

abbrev info : SysInfo
info = record {
  uptime = pos 60;
  totalram = 1000;
  freeram = 200;
  sharedram = 50;
  bufferram = 50;
  totalswap = 10;
  freeswap = 10;
}

abbrev root : Mount
root = record {
  device = b'/' ∷ b'd' ∷ b'e' ∷ b'v' ∷ b'/' ∷ b'a' ∷ [];
  mount_point = b'/' ∷ [];
  options = b'e' ∷ b'x' ∷ b't' ∷ b'4' ∷ [];
}

abbrev proc_mount : Mount
proc_mount = record { device = b'p' ∷ []; mount_point = proc; options = b'p' ∷ [] }

abbrev mounts : List Mount
mounts = root ∷ proc_mount ∷ []

abbrev nothing_there : Bytes → ℕ
nothing_there mount_point = 5

mounts-IsMount : All IsMount mounts
mounts-IsMount = (
  record {
    device = (λ e. cc, (refl, (refl, (refl, (refl, (refl, (refl, tt)))))), omega arith);
    mount_point = (λ e. cc, (refl, tt), omega arith);
    options = (refl, (refl, (refl, (refl, tt))));
    fits = omega arith;
  },
  (
    record {
      device = (λ e. cc, (refl, tt), omega arith);
      mount_point = (λ e. cc, (refl, (refl, (refl, (refl, (refl, tt))))), omega arith);
      options = (refl, tt);
      fits = omega arith;
    },
    tt,
  ),
)

get_disks_load-spell_example :
    (get_disks_load_linux whole_doubles nothing_there nothing_there (some (spell mounts))
      ≡ record { name = b'/' ∷ []; available_bytes = 5; total_bytes = 5 } ∷ [])
    × (get_disks_load_apple whole_doubles nothing_there nothing_there (some (spell mounts))
        ≡ record { name = b'/' ∷ []; available_bytes = 5; total_bytes = 5 }
          ∷ record { name = proc; available_bytes = 5; total_bytes = 5 }
          ∷ [])
unfolding kept strstr disk_info
get_disks_load-spell_example =
    get_disks_load-spell whole_doubles nothing_there nothing_there mounts mounts-IsMount

abbrev fds : List Bytes
fds = dot ∷ (b'0' ∷ []) ∷ dot_dot ∷ (b'1' ∷ b'7' ∷ []) ∷ []

abbrev pids : List Bytes
pids = dot ∷ dot_dot ∷ (b'1' ∷ []) ∷ (b's' ∷ []) ∷ []

-- Process 1 has the descriptors 0 and 17.
abbrev names_in : Bytes → Option (List Bytes)
names_in path =
    if eq_bytes path proc
    then some pids
    else if eq_bytes path proc_self_fd
    then some fds
    else if eq_bytes path (proc ++ b'/' ∷ b'1' ∷ b'/' ∷ b'f' ∷ b'd' ∷ [])
    then some fds
    else none

abbrev descriptor_17 : Bytes
descriptor_17 = proc ++ b'/' ∷ b'1' ∷ b'/' ∷ b'f' ∷ b'd' ∷ b'/' ∷ b'1' ∷ b'7' ∷ []

abbrev posix : Posix
posix = record {
  entries = names_in;
  is_socket = λ path. some (eq_bytes path descriptor_17);
  proc_text = 32 ∷ spaced ((b'1' ∷ []) ∷ (b's' ∷ []) ∷ []);
  mounts_file = some (spell mounts);
}

-- The same with links for descriptors.
abbrev posix_links : Posix
posix_links = record posix { is_socket = λ path. some false }

fds-IsEntry : All IsEntry fds
unfolding starts_with_digit is_digit
fds-IsEntry = (inl refl, (inr (inr refl), (inr (inl refl), (inr (inr refl), tt))))

handle_count_linux-count_if_example : handle_count_linux posix ≡ pos 2
unfolding count_if starts_with_digit is_digit
handle_count_linux-count_if_example = handle_count_linux-count_if posix fds refl fds-IsEntry

socket_count_posix-paths_example : socket_count_posix posix ≡ pos 1
unfolding count_if starts_with_digit is_digit pid_paths directory_paths fd_paths answers_socket
    fd_path proc_path atoi to_string decimal emit scan
socket_count_posix-paths_example = socket_count_posix-paths posix pids refl

abbrev node : Linux whole_doubles
node = record {
  stat_file = stat_text counters 0 0 (b'c' ∷ b'p' ∷ b'u' ∷ b'0' ∷ []);
  uninitialized = times (record counters { idle = 0 });
  info = info;
  posix = posix;
  get_available_disk_memory = nothing_there;
  get_total_disk_memory = nothing_there;
}

node-IsRunning : IsRunning node counters mounts fds pids
node-IsRunning = record {
  guest = 0;
  guest_nice = 0;
  processors = b'c' ∷ b'p' ∷ b'u' ∷ b'0' ∷ [];
  counted = refl;
  ram = omega arith;
  free_ram = omega arith;
  swap = omega arith;
  free_swap = omega arith;
  mounts_text = refl;
  mounts_fit = mounts-IsMount;
  fds_open = refl;
  fds_named = fds-IsEntry;
  pids_open = refl;
}

construct_response_linux_example :
    let response = construct_response whole_doubles (linux node) in
    (response.cpu_load ≡ 75)
    × (response.ram_load ≡ 70)
    × (response.swap_load ≡ 100)
    × (response.opened_files ≡ pos 2)
    × (response.socket_count ≡ pos 1)
    × (response.disks_load ≡ record { name = b'/' ∷ []; available_bytes = 5; total_bytes = 5 } ∷ [])
unfolding count_if starts_with_digit is_digit pid_paths directory_paths fd_paths answers_socket
    fd_path proc_path atoi to_string decimal emit scan kept strstr disk_info
construct_response_linux_example =
    construct_response_linux whole_doubles whole_doubles-IsExactAtZero node counters mounts fds pids
      node-IsRunning
