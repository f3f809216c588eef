-- ===== src/NodeInfo/Counts.antt =====
-- common/packets/node-info.cpp: getSystemUptimeMs, getProcessCount, getOpenFileHandleCount. The
-- counters stay in the range of int.
pub mod Counted
use packet_distribution_syst.Prelude.{
  ℕ, zero, suc, ◌/◌, Bool, true, false, not, ◌&&◌, none, some, List, [], ◌∷◌, length, ℤ, pos,
  negsuc, ltb_ℤ, ◌-ℤ◌, to_uint64, to_int32, ◌==◌, if◌then◌else◌,
}
use packet_distribution_syst.Archive.{Bytes}
use packet_distribution_syst.Text.{same_text, skip_space, starts_with_digit}
use packet_distribution_syst.NodeInfo.{Doubles, Posix, Platform, windows, linux, apple}
use packet_distribution_syst.NodeInfo.Mounts.{read_word}

abbrev pub dot : Bytes
dot = b'.' ∷ []

abbrev pub dot_dot : Bytes
dot_dot = b'.' ∷ b'.' ∷ []

-- "/proc/self/fd"
abbrev pub proc_self_fd : Bytes
proc_self_fd =
    b'/' ∷ b'p' ∷ b'r' ∷ b'o' ∷ b'c' ∷ b'/' ∷ b's' ∷ b'e' ∷ b'l' ∷ b'f' ∷ b'/' ∷ b'f' ∷ b'd' ∷ []

-- What the loop does with a word behind which stands `rest`; the stream is good as long as the end
-- was not met.
unfoldable pub process_loop : ℕ → Bytes → ℕ → ℕ
unfolding read_word skip_space starts_with_digit
process_loop zero text process_count = process_count
process_loop (suc fuel) text process_count =
    let (filename, rest) = read_word (length text) (skip_space text) in
    let counted = if starts_with_digit filename then suc process_count else process_count in
    let next = process_loop fuel rest counted in elim rest [ [] ↦ counted | _ ∷ _ ↦ next ]

unfoldable pub process_count_posix : Posix → ℤ
unfolding process_loop
process_count_posix p = pos (process_loop (suc (length p.proc_text)) p.proc_text 0)

unfoldable pub handles_loop : List Bytes → ℕ → ℕ
unfolding same_text
handles_loop [] handle_count = handle_count
handles_loop (name ∷ names) handle_count = handles_loop names (
    if not (same_text name dot) && not (same_text name dot_dot)
    then suc handle_count
    else handle_count)

unfoldable pub handle_count_linux : Posix → ℤ
unfolding handles_loop
handle_count_linux p = elim (p.entries proc_self_fd) [
  | none ↦ negsuc 0
  | some names ↦ pos (handles_loop names 0)
]

module _ (D : Doubles) where
  pub get_system_uptime_ms : Platform D → ℕ
  get_system_uptime_ms (windows w) = w.tick_count
  get_system_uptime_ms (linux l) = to_uint64 l.info.uptime
  get_system_uptime_ms (apple a) = elim a.boottime [
    | none ↦ 0
    | some seconds ↦ to_uint64 (a.current_time -ℤ seconds)
  ]

  unfoldable pub get_process_count : Platform D → ℤ
  unfolding process_count_posix
  get_process_count (windows w) = elim w.processes [
    | none ↦ pos 0
    | some bytes_returned ↦ to_int32 (bytes_returned / 4)
  ]
  get_process_count (linux l) = process_count_posix l.posix
  get_process_count (apple a) = process_count_posix a.posix

  unfoldable pub get_open_file_handle_count : Platform D → ℤ
  unfolding handle_count_linux
  get_open_file_handle_count (windows w) = elim w.handle_count [
    | none ↦ negsuc 0
    | some handle_count ↦ to_int32 handle_count
  ]
  get_open_file_handle_count (linux l) = handle_count_linux l.posix
  get_open_file_handle_count (apple a) = if ltb_ℤ a.all_pids (pos 0) then negsuc 0 else a.all_pids
