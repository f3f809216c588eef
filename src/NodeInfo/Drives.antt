-- ===== src/NodeInfo/Drives.antt =====
-- common/packets/node-info.cpp, getDisksLoad on Windows.
use packet_distribution_syst.Prelude.{
  ℕ, zero, suc, ◌+◌, ◌*◌, ◌/◌, ◌%◌, ◌≤◌, ◌≡◌, refl, sym, ◌∙◌, ap, Bool, true, false, none, some,
  Option, List, [], ◌∷◌, ◌++◌, append_assoc, append-nil, pos, length, ◌==◌, if◌then◌else◌, arith,
  Bool-cases, inl, inr,
}
use packet_distribution_syst.Archive.{Bytes}
use packet_distribution_syst.NodeInfo.{Doubles}
use packet_distribution_syst.NodeInfo.Disk.{DiskInfo}

module _ (D : Doubles) (disk_free_space : Bytes → Option (ℕ × ℕ)) where
  -- The entry of one drive, if the system gives its sizes.
  unfoldable pub probe : ℕ → List (DiskInfo D.Double)
  probe drive_letter =
      let device_name = drive_letter ∷ b':' ∷ b'\\' ∷ [] in
      elim (disk_free_space device_name) [
        | none ↦ []
        | some (available, total) ↦
            record {
              name = device_name;
              available_bytes = D.of_integer (pos available);
              total_bytes = D.of_integer (pos total);
            }
            ∷ []
      ]

  -- The loop, with fuel: 32 rounds shift a DWORD to zero.
  unfoldable pub drives_loop : ℕ → ℕ → ℕ → List (DiskInfo D.Double) → List (DiskInfo D.Double)
  drives_loop zero drives drive_letter disk_info_list = disk_info_list
  drives_loop (suc fuel) drives drive_letter disk_info_list =
      let rest =
        drives_loop fuel (drives / 2) (suc drive_letter)
          (if drives % 2 == 1 then disk_info_list ++ probe drive_letter else disk_info_list) in
      if drives == 0 then disk_info_list else rest

  unfoldable pub get_disks_load_windows : ℕ → List (DiskInfo D.Double)
  unfolding drives_loop
  get_disks_load_windows drives = drives_loop 32 drives b'A' []

  -- The bit mask for which of the drives, from the first letter on, are there.
  unfoldable pub mask : List Bool → ℕ
  mask [] = 0
  mask (present ∷ drives) = (if present then 1 else 0) + 2 * mask drives

  -- The entries of the drives that are there, the first of which has the given letter.
  unfoldable pub listed : ℕ → List Bool → List (DiskInfo D.Double)
  unfolding probe
  listed drive_letter [] = []
  listed drive_letter (true ∷ drives) = probe drive_letter ++ listed (suc drive_letter) drives
  listed drive_letter (false ∷ drives) = listed (suc drive_letter) drives

  listed_none : (drives : List Bool) (letter : ℕ) → mask drives ≡ 0 → listed letter drives ≡ []
  unfolding mask listed
  listed_none [] letter h = refl
  listed_none (true ∷ drives) letter h = absurd (omega arith)
  listed_none (false ∷ drives) letter h = listed_none drives (suc letter) (omega arith)

  drives_loop-mask :
      (drives : List Bool) (fuel letter : ℕ) (list : List (DiskInfo D.Double))
      → length drives ≤ fuel
      → drives_loop fuel (mask drives) letter list ≡ list ++ listed letter drives
  unfolding drives_loop mask listed
  drives_loop-mask [] zero letter list h = sym (append-nil list)
  drives_loop-mask [] (suc fuel) letter list h = sym (append-nil list)
  drives_loop-mask (present ∷ drives) zero letter list h = absurd (omega arith)
  drives_loop-mask (true ∷ drives) (suc fuel) letter list h =
      let half : (1 + 2 * mask drives) / 2 ≡ mask drives = omega arith in
      let odd : ((1 + 2 * mask drives) % 2 == 1) ≡ true = ground arith in
      let more : (1 + 2 * mask drives == 0) ≡ false = ground arith in
      rw (half, odd, more)
        (drives_loop-mask drives fuel (suc letter) (list ++ probe letter) (omega arith)
          ∙ append_assoc list (probe letter) (listed (suc letter) drives))
  drives_loop-mask (false ∷ drives) (suc fuel) letter list h =
      let half : (0 + 2 * mask drives) / 2 ≡ mask drives = omega arith in
      let even : ((0 + 2 * mask drives) % 2 == 1) ≡ false = ground arith in
      elim (Bool-cases (0 + 2 * mask drives == 0)) [
        | inl e ↦ rw e (
            sym (append-nil list)
            ∙ ap (λ l. list ++ l) (sym (listed_none drives (suc letter) (ground arith))))
        | inr e ↦ rw (half, even, e) (drives_loop-mask drives fuel (suc letter) list (omega arith))
      ]

  -- For any set of at most 32 drives, the loop over its bit mask lists the drives of the set whose
  -- sizes the system gives, in the order of their letters.
  pub get_disks_load_windows-mask :
      (drives : List Bool)
      → length drives ≤ 32
      → get_disks_load_windows (mask drives) ≡ listed b'A' drives
  unfolding get_disks_load_windows
  get_disks_load_windows-mask drives h = drives_loop-mask drives 32 b'A' [] h
