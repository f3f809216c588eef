-- ===== src/NodeInfo/Sockets/Found.antt =====
-- Which files the socket count is about.
use packet_distribution_syst.Prelude.{
  ℕ, ◌+◌, ◌≡◌, ◌∙◌, ap, Bool, none, some, Option, List, [], ◌∷◌, ◌++◌, ℤ, pos, if◌then◌else◌, arith,
  Bool-cases, inl, inr,
}
use packet_distribution_syst.Archive.{Bytes}
use packet_distribution_syst.Text.{starts_with_digit}
use packet_distribution_syst.NodeInfo.{Posix}
use packet_distribution_syst.NodeInfo.Counts.Counted.{count_if}
use packet_distribution_syst.NodeInfo.Sockets.{
  proc, atoi, proc_path, fd_path, answers_socket, fd_loop, pid_body, pid_loop, socket_count_in,
  socket_count_posix,
}

module _ (p : Posix) where
  -- The paths of the descriptors of a process, by the names in its directory.
  unfoldable pub fd_paths : ℤ → List Bytes → List Bytes
  fd_paths pid [] = []
  fd_paths pid (name ∷ names) =
      (if starts_with_digit name then fd_path pid (atoi name) ∷ [] else []) ++ fd_paths pid names

  unfoldable pub directory_paths : ℤ → Option (List Bytes) → List Bytes
  directory_paths pid none = []
  directory_paths pid (some names) = fd_paths pid names

  -- The paths of the descriptors of all processes.
  unfoldable pub pid_paths : List Bytes → List Bytes
  pid_paths [] = []
  pid_paths (name ∷ names) =
      (if starts_with_digit name
        then directory_paths (atoi name) (p.entries (proc_path (atoi name)))
        else [])
      ++ pid_paths names

  abbrev pub is_open_socket : Bytes → Bool
  is_open_socket path = answers_socket (p.is_socket path)

  count_if-append :
      (xs ys : List Bytes)
      → count_if is_open_socket (xs ++ ys) ≡ count_if is_open_socket xs + count_if is_open_socket ys
  unfolding count_if
  count_if-append [] ys = omega arith
  count_if-append (x ∷ xs) ys = omega (arith, count_if-append xs ys)

  fd_loop-paths :
      (pid : ℤ) (names : List Bytes) (count : ℕ)
      → fd_loop p pid names count ≡ count + count_if is_open_socket (fd_paths pid names)
  unfolding fd_loop fd_paths count_if
  fd_loop-paths pid [] count = omega arith
  fd_loop-paths pid (name ∷ names) count = elim (Bool-cases (starts_with_digit name)) [
    | inl e ↦ rw e (fd_loop-paths pid names _ ∙ ground arith)
    | inr e ↦ rw e (fd_loop-paths pid names count)
  ]

  pid_body-paths :
      (pid : ℤ) (opened : Option (List Bytes)) (count : ℕ)
      → pid_body p pid opened count ≡ count + count_if is_open_socket (directory_paths pid opened)
  unfolding pid_body directory_paths count_if
  pid_body-paths pid none count = omega arith
  pid_body-paths pid (some names) count = fd_loop-paths pid names count

  pid_loop-paths :
      (names : List Bytes) (count : ℕ)
      → pid_loop p names count ≡ count + count_if is_open_socket (pid_paths names)
  unfolding pid_loop pid_paths count_if
  pid_loop-paths [] count = omega arith
  pid_loop-paths (name ∷ names) count = elim (Bool-cases (starts_with_digit name)) [
    | inl e ↦ rw e (
        pid_loop-paths names _
        ∙ omega (
          arith,
          pid_body-paths (atoi name) (p.entries (proc_path (atoi name))) count,
          count_if-append (directory_paths (atoi name) (p.entries (proc_path (atoi name))))
              (pid_paths names),
        ))
    | inr e ↦ rw e (pid_loop-paths names count)
  ]

  -- If /proc opens, the socket count is the number of descriptor paths, over the processes whose
  -- directory opens, for which lstat answers that the file is a socket.
  pub socket_count_posix-paths :
      (names : List Bytes)
      → p.entries proc ≡ some names
      → socket_count_posix p ≡ pos (count_if is_open_socket (pid_paths names))
  unfolding socket_count_posix socket_count_in
  socket_count_posix-paths names opened =
      ap (λ o. pos (socket_count_in p o)) opened ∙ ap pos (pid_loop-paths names 0 ∙ omega arith)
