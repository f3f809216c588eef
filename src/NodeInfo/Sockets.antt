-- ===== src/NodeInfo/Sockets.antt =====
-- common/packets/node-info.cpp, getOpenSocketCount. The counter stays in the range of int.
pub mod Found
use packet_distribution_syst.Prelude.{
  ℕ, suc, Bool, true, false, none, some, Option, List, [], ◌∷◌, ◌++◌, ℤ, pos, if◌then◌else◌,
}
use packet_distribution_syst.Archive.{Bytes}
use packet_distribution_syst.Text.{to_string, scan, starts_with_digit}
use packet_distribution_syst.NodeInfo.{Doubles, Posix, Platform, windows, linux, apple}

-- "/proc"
abbrev pub proc : Bytes
proc = b'/' ∷ b'p' ∷ b'r' ∷ b'o' ∷ b'c' ∷ []

-- `atoi` of a text that starts with a digit; past the largest int nothing is defined.
unfoldable pub atoi : Bytes → ℤ
unfolding scan
atoi s = pos (scan 0 s)

-- "/proc/%d/fd"
unfoldable pub proc_path : ℤ → Bytes
proc_path pid = proc ++ b'/' ∷ (to_string pid ++ b'/' ∷ b'f' ∷ b'd' ∷ [])

-- "/proc/%d/fd/%d"
unfoldable pub fd_path : ℤ → ℤ → Bytes
unfolding proc_path
fd_path pid fd = proc_path pid ++ b'/' ∷ to_string fd

-- lstat(...) == 0 && S_ISSOCK(...)
unfoldable pub answers_socket : Option Bool → Bool
answers_socket none = false
answers_socket (some is_socket) = is_socket

module _ (p : Posix) where
  unfoldable pub fd_loop : ℤ → List Bytes → ℕ → ℕ
  unfolding fd_path atoi answers_socket starts_with_digit
  fd_loop pid [] open_sockets = open_sockets
  fd_loop pid (name ∷ names) open_sockets = fd_loop pid names (
      if starts_with_digit name
      then (if answers_socket (p.is_socket (fd_path pid (atoi name)))
          then suc open_sockets
          else open_sockets)
      else open_sockets)

  -- The descriptors of a process, if its directory opens.
  unfoldable pub pid_body : ℤ → Option (List Bytes) → ℕ → ℕ
  unfolding fd_loop
  pid_body pid none open_sockets = open_sockets
  pid_body pid (some names) open_sockets = fd_loop pid names open_sockets

  unfoldable pub pid_loop : List Bytes → ℕ → ℕ
  unfolding pid_body proc_path atoi starts_with_digit
  pid_loop [] open_sockets = open_sockets
  pid_loop (name ∷ names) open_sockets = pid_loop names (
      if starts_with_digit name
      then pid_body (atoi name) (p.entries (proc_path (atoi name))) open_sockets
      else open_sockets)

  unfoldable pub socket_count_in : Option (List Bytes) → ℕ
  unfolding pid_loop
  socket_count_in none = 0
  socket_count_in (some names) = pid_loop names 0

  unfoldable pub socket_count_posix : ℤ
  unfolding socket_count_in
  socket_count_posix = pos (socket_count_in (p.entries proc))

module _ (D : Doubles) where
  unfoldable pub get_open_socket_count : Platform D → ℤ
  unfolding socket_count_posix
  get_open_socket_count (windows w) = pos 0
  get_open_socket_count (linux l) = socket_count_posix l.posix
  get_open_socket_count (apple a) = socket_count_posix a.posix
