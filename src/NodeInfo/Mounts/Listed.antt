-- ===== src/NodeInfo/Mounts/Listed.antt =====
-- Which disks are listed for a mounts file.
use packet_distribution_syst.Prelude.{
  ℕ, zero, suc, ◌≤◌, ◌<◌, ◌≡◌, refl, sym, ◌∙◌, ap, Bool, true, some, List, [], ◌∷◌, ◌++◌, length,
  length-append, append_assoc, append-nil, All, All-append, if◌then◌else◌, arith,
}
use packet_distribution_syst.Archive.{Bytes}
use packet_distribution_syst.NodeInfo.{Doubles}
use packet_distribution_syst.NodeInfo.Disk.{DiskInfo}
use packet_distribution_syst.NodeInfo.Mounts.{
  fgets, strstr, dev, scan_two, disk_info, entry, mounts_loop, disks_of_file, get_disks_load_linux,
  get_disks_load_apple,
}
use packet_distribution_syst.NodeInfo.Mounts.Lines.{
  IsGraphic, IsWord, InLine, fgets-line, scan_two-words,
}

-- A line of the file, by its fields; `options` is all that follows the mount point.
pub record Mount : Type 0 where
  pub device : Bytes
  pub mount_point : Bytes
  pub options : Bytes

abbrev pub fields : Mount → Bytes
fields m = m.device ++ 32 ∷ (m.mount_point ++ 32 ∷ m.options)

pub record IsMount (m : Mount) : Type 0 where
  pub device : IsWord m.device
  pub mount_point : IsWord m.mount_point
  pub options : All InLine m.options
  -- with its newline it fits into the buffer of 512 characters
  pub fits : length (fields m) < 511

-- The text of the file.
unfoldable pub spell : List Mount → Bytes
spell [] = []
spell (m ∷ mounts) = fields m ++ b'\n' ∷ spell mounts

IsGraphic-InLine : (c : ℕ) → IsGraphic c → InLine c
IsGraphic-InLine c h = ground arith

All-InLine : (w : Bytes) → All IsGraphic w → All InLine w
All-InLine [] h = tt
All-InLine (c ∷ w) (this, h) = (IsGraphic-InLine c this, All-InLine w h)

fields-InLine : (m : Mount) → IsMount m → All InLine (fields m)
fields-InLine m h = All-append InLine m.device _ (All-InLine m.device (h.device.1)) (
  refl,
  All-append InLine m.mount_point _ (All-InLine m.mount_point (h.mount_point.1)) (refl, h.options),
)

module _ (D : Doubles) (available total : Bytes → D.Double) where
  -- The disks at the mount points whose device the test keeps, in the order of the file.
  unfoldable pub kept : (Bytes → Bool) → List Mount → List (DiskInfo D.Double)
  kept keeps [] = []
  kept keeps (m ∷ mounts) =
      (if keeps m.device then disk_info D available total m.mount_point ∷ [] else [])
      ++ kept keeps mounts

  scan_two-fields :
      (m : Mount) → IsMount m → scan_two (fields m ++ b'\n' ∷ []) ≡ some (m.device, m.mount_point)
  scan_two-fields m h =
      ap scan_two (
        append_assoc m.device _ _
        ∙ ap (λ r. m.device ++ 32 ∷ r) (append_assoc m.mount_point _ (b'\n' ∷ [])))
      ∙ scan_two-words m.device m.mount_point (m.options ++ b'\n' ∷ []) h.device h.mount_point

  mounts_loop-next :
      (keeps : Bytes → Bool) (fuel : ℕ) (text : Bytes) (list : List (DiskInfo D.Double))
      → 0 < length text
      → mounts_loop D available total keeps (suc fuel) text list
        ≡ mounts_loop D available total keeps fuel
            (fgets 511 text).1
            (list ++ entry D available total keeps (scan_two (fgets 511 text).0))
  unfolding mounts_loop
  mounts_loop-next keeps fuel [] list h = absurd (omega arith)
  mounts_loop-next keeps fuel (c ∷ text) list h = refl

  mounts_loop-line :
      (keeps : Bytes → Bool) (m : Mount) (text : Bytes) (fuel : ℕ) (list : List (DiskInfo D.Double))
      → IsMount m
      → mounts_loop D available total keeps (suc fuel) (fields m ++ b'\n' ∷ text) list
        ≡ mounts_loop D available total keeps fuel text
            (list ++ entry D available total keeps (some (m.device, m.mount_point)))
  mounts_loop-line keeps m text fuel list h =
      mounts_loop-next keeps fuel (fields m ++ b'\n' ∷ text) list
        (omega (arith, length-append (fields m) (b'\n' ∷ text)))
      ∙ ap
          (λ p.
            mounts_loop D available total keeps fuel (p.1)
              (list ++ entry D available total keeps (scan_two (p.0))))
          (fgets-line (fields m) text 511 (fields-InLine m h) h.fits)
      ∙ ap
          (λ o.
            mounts_loop D available total keeps fuel text (list ++ entry D available total keeps o))
          (scan_two-fields m h)

  mounts_loop-end :
      (keeps : Bytes → Bool) (fuel : ℕ) (list : List (DiskInfo D.Double))
      → mounts_loop D available total keeps fuel [] list ≡ list
  unfolding mounts_loop
  mounts_loop-end keeps zero list = refl
  mounts_loop-end keeps (suc fuel) list = refl

  mounts_loop-spell :
      (keeps : Bytes → Bool) (mounts : List Mount) (fuel : ℕ) (list : List (DiskInfo D.Double))
      → All IsMount mounts
      → length (spell mounts) ≤ fuel
      → mounts_loop D available total keeps fuel (spell mounts) list ≡ list ++ kept keeps mounts
  unfolding spell kept entry
  mounts_loop-spell keeps [] fuel list h enough =
      mounts_loop-end keeps fuel list ∙ sym (append-nil list)
  mounts_loop-spell keeps (m ∷ mounts) zero list h enough =
      absurd (omega (arith, length-append (fields m) (b'\n' ∷ spell mounts)))
  mounts_loop-spell keeps (m ∷ mounts) (suc fuel) list (this, h) enough =
      mounts_loop-line keeps m (spell mounts) fuel list this
      ∙ mounts_loop-spell keeps mounts fuel _ h
          (omega (arith, length-append (fields m) (b'\n' ∷ spell mounts)))
      ∙ append_assoc list _ (kept keeps mounts)

  -- For a mounts file of well-formed lines that fit the buffers, the scan lists the disks at the
  -- mount points whose device contains "/dev/" on Linux, and at every mount point on macOS, in the
  -- order of the file.
  pub get_disks_load-spell :
      (mounts : List Mount)
      → All IsMount mounts
      → (get_disks_load_linux D available total (some (spell mounts))
          ≡ kept (λ device. strstr device dev) mounts)
        × (get_disks_load_apple D available total (some (spell mounts))
            ≡ kept (λ device. true) mounts)
  unfolding get_disks_load_linux get_disks_load_apple disks_of_file
  get_disks_load-spell mounts h = (
    mounts_loop-spell (λ device. strstr device dev) mounts _ [] h (omega arith),
    mounts_loop-spell (λ device. true) mounts _ [] h (omega arith),
  )
