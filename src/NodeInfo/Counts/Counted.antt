-- ===== src/NodeInfo/Counts/Counted.antt =====
-- What the counters count.
use packet_distribution_syst.Prelude.{
  ℕ, zero, suc, ◌+◌, ◌≤◌, ◌<◌, ◌≡◌, refl, ◌∙◌, ap, ◌⊎◌, inl, inr, Bool, true, false, not, ◌&&◌,
  some, List, [], ◌∷◌, ◌++◌, length, length-append, All, pos, if◌then◌else◌, arith,
}
use packet_distribution_syst.Archive.{Bytes}
use packet_distribution_syst.Text.{same_text, skip_space, is_digit, starts_with_digit}
use packet_distribution_syst.NodeInfo.{Posix}
use packet_distribution_syst.NodeInfo.Mounts.{read_word}
use packet_distribution_syst.NodeInfo.Mounts.Lines.{IsWord, skip_space-word, read_word-word}
use packet_distribution_syst.NodeInfo.Counts.{
  dot, dot_dot, proc_self_fd, handles_loop, handle_count_linux, process_loop, process_count_posix,
}

module _ {ℓ} {A : Type ℓ} (test : A → Bool) where
  -- How many elements pass the test.
  unfoldable pub count_if : List A → ℕ
  count_if [] = 0
  count_if (x ∷ xs) = (if test x then 1 else 0) + count_if xs

-- A name in the directory: one of the two links, or a number.
abbrev pub IsEntry : Bytes → Type 0
IsEntry name = (name ≡ dot) ⊎ (name ≡ dot_dot) ⊎ (starts_with_digit name ≡ true)

digit_is_no_dot :
    (name rest : Bytes) → starts_with_digit name ≡ true → same_text name (b'.' ∷ rest) ≡ false
unfolding starts_with_digit is_digit same_text
digit_is_no_dot [] rest h = refl
digit_is_no_dot (c ∷ name) rest h = ground arith

counted_name :
    (name : Bytes)
    → IsEntry name
    → (not (same_text name dot) && not (same_text name dot_dot)) ≡ starts_with_digit name
unfolding same_text starts_with_digit is_digit
counted_name name (inl e) = rw e refl
counted_name name (inr (inl e)) = rw e refl
counted_name name (inr (inr e)) =
    rw (digit_is_no_dot name [] e, digit_is_no_dot name (b'.' ∷ []) e, e) refl

handles_loop-count_if :
    (names : List Bytes) (count : ℕ)
    → All IsEntry names
    → handles_loop names count ≡ count + count_if starts_with_digit names
unfolding handles_loop count_if
handles_loop-count_if [] count h = omega arith
handles_loop-count_if (name ∷ names) count (this, h) = rw (counted_name name this) (
    handles_loop-count_if names (if starts_with_digit name then suc count else count) h
    ∙ ground arith)

-- On Linux the count of open file handles is that of the numbers in /proc/self/fd, in whatever order
-- the names come, if besides the numbers there are only the two links.
pub handle_count_linux-count_if :
    (p : Posix) (names : List Bytes)
    → p.entries proc_self_fd ≡ some names
    → All IsEntry names
    → handle_count_linux p ≡ pos (count_if starts_with_digit names)
unfolding handle_count_linux
handle_count_linux-count_if p names opened h =
    rw (handle_count_linux, opened) (ap pos (handles_loop-count_if names 0 h ∙ omega arith))

-- The words of a text, each with a space behind it.
unfoldable pub spaced : List Bytes → Bytes
spaced [] = []
spaced (w ∷ words) = w ++ 32 ∷ spaced words

first_word :
    (w : Bytes) (words : List Bytes) (width : ℕ)
    → IsWord w
    → length w ≤ width
    → read_word width (skip_space (32 ∷ w ++ 32 ∷ spaced words)) ≡ (w, 32 ∷ spaced words)
first_word w words width this h =
    ap (read_word width) (skip_space-word w (32 ∷ spaced words) this)
    ∙ read_word-word w (spaced words) width (this.1) h

nothing_left : (fuel count : ℕ) → process_loop (suc fuel) (32 ∷ []) count ≡ count + 0
unfolding process_loop skip_space read_word starts_with_digit
nothing_left fuel count = omega arith

process_loop-spaced :
    (words : List Bytes) (fuel count : ℕ)
    → All IsWord words
    → length (spaced words) < fuel
    → process_loop fuel (32 ∷ spaced words) count ≡ count + count_if starts_with_digit words
unfolding process_loop spaced count_if
process_loop-spaced [] zero count h enough = absurd (omega arith)
process_loop-spaced [] (suc fuel) count h enough = nothing_left fuel count
process_loop-spaced (w ∷ words) zero count h enough = absurd (omega arith)
process_loop-spaced (w ∷ words) (suc fuel) count (this, h) enough =
    ap
      (λ p. elim (p.1) [
        | [] ↦ (if starts_with_digit (p.0) then suc count else count)
        | _ ∷ _ ↦ process_loop fuel (p.1) (if starts_with_digit (p.0) then suc count else count)
      ])
      (first_word w words (length (32 ∷ w ++ 32 ∷ spaced words)) this
        (omega (arith, length-append w (32 ∷ spaced words))))
    ∙ process_loop-spaced words fuel (if starts_with_digit w then suc count else count) h
        (omega (arith, length-append w (32 ∷ spaced words)))
    ∙ ground arith

-- The process count on POSIX systems is the number of words that start with a digit, for a text that
-- is words, each between spaces.
pub process_count_posix-spaced :
    (p : Posix) (words : List Bytes)
    → All IsWord words
    → p.proc_text ≡ 32 ∷ spaced words
    → process_count_posix p ≡ pos (count_if starts_with_digit words)
unfolding process_count_posix
process_count_posix-spaced p words h text =
    ap (λ t. pos (process_loop (suc (length t)) t 0)) text
    ∙ ap pos (
        process_loop-spaced words (suc (suc (length (spaced words)))) 0 h (omega arith)
        ∙ omega arith)
