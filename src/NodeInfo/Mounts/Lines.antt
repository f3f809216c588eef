-- ===== src/NodeInfo/Mounts/Lines.antt =====
-- How a line of the mounts file is read.
use packet_distribution_syst.Prelude.{
  ℕ, zero, suc, ◌≤◌, ◌<◌, ◌≡◌, ◌≢◌, refl, ◌∙◌, ap, false, some, [], ◌∷◌, ◌++◌, length, All, ◌==◌,
  arith,
}
use packet_distribution_syst.Archive.{Bytes}
use packet_distribution_syst.Text.{skip_space}
use packet_distribution_syst.NodeInfo.Mounts.{
  is_space, fgets, read_word, scan_word, scan_two, scan_rest, scan_second, matched,
}

abbrev pub IsGraphic : ℕ → Type 0
IsGraphic c = is_space c ≡ false

-- A word that fits into the buffer of 256 characters.
abbrev pub IsWord : Bytes → Type 0
IsWord w = (w ≢ []) × All IsGraphic w × (length w ≤ 255)

abbrev pub InLine : ℕ → Type 0
InLine c = (c == b'\n') ≡ false

pub fgets-line :
    (line rest : Bytes) (room : ℕ)
    → All InLine line
    → length line < room
    → fgets room (line ++ b'\n' ∷ rest) ≡ (line ++ b'\n' ∷ [], rest)
unfolding fgets
fgets-line [] rest zero inside h = absurd (omega arith)
fgets-line [] rest (suc room) inside h = refl
fgets-line (c ∷ line) rest zero inside h = absurd (omega arith)
fgets-line (c ∷ line) rest (suc room) (this, inside) h =
    rw (this, fgets-line line rest room inside (omega arith)) refl

pub read_word-word :
    (w rest : Bytes) (width : ℕ)
    → All IsGraphic w
    → length w ≤ width
    → read_word width (w ++ 32 ∷ rest) ≡ (w, 32 ∷ rest)
unfolding read_word
read_word-word [] rest zero graphic h = refl
read_word-word [] rest (suc width) graphic h = refl
read_word-word (c ∷ w) rest zero graphic h = absurd (omega arith)
read_word-word (c ∷ w) rest (suc width) (this, graphic) h =
    rw (this, read_word-word w rest width graphic (omega arith)) refl

scan_word-word : (w rest : Bytes) → IsWord w → scan_word (w ++ 32 ∷ rest) ≡ some (w, 32 ∷ rest)
unfolding scan_word matched skip_space
scan_word-word [] rest (some_character, _, _) = absurd (some_character refl)
scan_word-word (c ∷ w) rest (_, (this, graphic), fits) =
    rw (this, read_word-word (c ∷ w) rest 255 (this, graphic) fits) refl

pub skip_space-word : (w rest : Bytes) → IsWord w → skip_space (32 ∷ w ++ rest) ≡ w ++ rest
unfolding skip_space
skip_space-word [] rest (some_character, _, _) = absurd (some_character refl)
skip_space-word (c ∷ w) rest (_, (this, _), _) = rw this refl

-- Two words with a space behind each are matched.
pub scan_two-words :
    (device mount_point rest : Bytes)
    → IsWord device
    → IsWord mount_point
    → scan_two (device ++ 32 ∷ (mount_point ++ 32 ∷ rest)) ≡ some (device, mount_point)
unfolding scan_two scan_rest scan_second
scan_two-words device mount_point rest d m =
    ap scan_rest (scan_word-word device (mount_point ++ 32 ∷ rest) d)
    ∙ ap (λ s. scan_second device (scan_word s)) (skip_space-word mount_point (32 ∷ rest) m)
    ∙ ap (scan_second device) (scan_word-word mount_point rest m)
