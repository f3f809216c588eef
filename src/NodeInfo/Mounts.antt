-- ===== src/NodeInfo/Mounts.antt =====
-- common/packets/node-info.cpp, getDisksLoad on Linux and macOS, with what it uses of fgets, sscanf
-- and strstr. The text of the file has no null character.
pub mod Lines
pub mod Listed
use packet_distribution_syst.Prelude.{
  ℕ, zero, suc, Bool, true, false, none, some, Option, List, [], ◌∷◌, ◌++◌, length, leb, ◌==◌, ◌&&◌,
  ◌||◌, if◌then◌else◌,
}
use packet_distribution_syst.Archive.{Bytes}
use packet_distribution_syst.Text.{skip_space}
use packet_distribution_syst.NodeInfo.{Doubles}
use packet_distribution_syst.NodeInfo.Disk.{DiskInfo}

abbrev pub is_space : ℕ → Bool
is_space c = c == 32 || leb 9 c && leb c 13

-- `fgets` with room for so many characters: the line and what is left.
unfoldable pub fgets : ℕ → Bytes → Bytes × Bytes
fgets zero s = ([], s)
fgets (suc room) [] = ([], [])
fgets (suc room) (c ∷ s) =
    let rest = fgets room s in if c == b'\n' then (c ∷ [], s) else (c ∷ rest.0, rest.1)

-- A word of at most so many characters.
unfoldable pub read_word : ℕ → Bytes → Bytes × Bytes
read_word zero s = ([], s)
read_word (suc width) [] = ([], [])
read_word (suc width) (c ∷ s) =
    let rest = read_word width s in if is_space c then ([], c ∷ s) else (c ∷ rest.0, rest.1)

-- `%255s`; none if there is no word.
unfoldable pub matched : Bytes × Bytes → Option (Bytes × Bytes)
matched ([], rest) = none
matched (c ∷ word, rest) = some (c ∷ word, rest)

unfoldable pub scan_word : Bytes → Option (Bytes × Bytes)
unfolding read_word matched
scan_word s = matched (read_word 255 (skip_space s))

-- The second word, behind the space in the format.
unfoldable pub scan_second : Bytes → Option (Bytes × Bytes) → Option (Bytes × Bytes)
scan_second device none = none
scan_second device (some (mount_point, rest)) = some (device, mount_point)

unfoldable pub scan_rest : Option (Bytes × Bytes) → Option (Bytes × Bytes)
unfolding scan_word scan_second
scan_rest none = none
scan_rest (some (device, rest)) = scan_second device (scan_word (skip_space rest))

-- `sscanf(line, "%255s %255s", device, mountPoint)` if it matches both.
unfoldable pub scan_two : Bytes → Option (Bytes × Bytes)
unfolding scan_word scan_rest
scan_two line = scan_rest (scan_word line)

unfoldable pub starts_with : Bytes → Bytes → Bool
starts_with [] s = true
starts_with (c ∷ prefix) [] = false
starts_with (c ∷ prefix) (d ∷ s) = c == d && starts_with prefix s

-- strstr(s, needle) != nullptr
unfoldable pub strstr : Bytes → Bytes → Bool
unfolding starts_with
strstr [] needle = starts_with needle []
strstr (c ∷ s) needle = starts_with needle (c ∷ s) || strstr s needle

-- "/dev/"
abbrev pub dev : Bytes
dev = b'/' ∷ b'd' ∷ b'e' ∷ b'v' ∷ b'/' ∷ []

module _ (D : Doubles) (get_available_disk_memory get_total_disk_memory : Bytes → D.Double) where
  unfoldable pub disk_info : Bytes → DiskInfo D.Double
  disk_info mount_point = record {
    name = mount_point;
    available_bytes = get_available_disk_memory mount_point;
    total_bytes = get_total_disk_memory mount_point;
  }

  -- What the body of the loop appends; `keeps` is the test of the device.
  unfoldable pub entry : (Bytes → Bool) → Option (Bytes × Bytes) → List (DiskInfo D.Double)
  unfolding disk_info
  entry keeps none = []
  entry keeps (some (device, mount_point)) = if keeps device then disk_info mount_point ∷ [] else []

  -- The loop over the lines, with fuel: a line takes at least one character.
  unfoldable pub mounts_loop :
      (Bytes → Bool) → ℕ → Bytes → List (DiskInfo D.Double) → List (DiskInfo D.Double)
  unfolding entry fgets scan_two
  mounts_loop keeps zero text disk_info_list = disk_info_list
  mounts_loop keeps (suc fuel) [] disk_info_list = disk_info_list
  mounts_loop keeps (suc fuel) (c ∷ text) disk_info_list =
      let (line, rest) = fgets 511 (c ∷ text) in
      mounts_loop keeps fuel rest (disk_info_list ++ entry keeps (scan_two line))

  unfoldable pub disks_of_file : (Bytes → Bool) → Option Bytes → List (DiskInfo D.Double)
  unfolding mounts_loop
  disks_of_file keeps none = []
  disks_of_file keeps (some text) = mounts_loop keeps (length text) text []

  -- /proc/mounts
  unfoldable pub get_disks_load_linux : Option Bytes → List (DiskInfo D.Double)
  unfolding disks_of_file
  get_disks_load_linux mounts_file = disks_of_file (λ device. strstr device dev) mounts_file

  -- /etc/fstab
  unfoldable pub get_disks_load_apple : Option Bytes → List (DiskInfo D.Double)
  unfolding disks_of_file
  get_disks_load_apple mounts_file = disks_of_file (λ device. true) mounts_file
