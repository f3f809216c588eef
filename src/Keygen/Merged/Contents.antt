-- ===== src/Keygen/Merged/Contents.antt =====
-- What WriteMergedKeys leaves in the two files, and when it refuses.
use packet_distribution_syst.Prelude.{
  ◌≡◌, ◌≢◌, refl, sym, ap, ◌∙◌, ◌⊎◌, inl, inr, Bool, true, false, some, none, List, [], ◌∷◌, ◌++◌,
  append_assoc, append-nil, Bool-cases, arith,
}
use packet_distribution_syst.Archive.{Bytes}
use packet_distribution_syst.Files.{FileSystem, Stream, put_endl, close}
use packet_distribution_syst.Files.Laws.{
  IsLawful, at_end, content-write_self, content-write_other, open_file_lem, open_file_refused,
  put_endl-put, close-at_end,
}
use packet_distribution_syst.Keygen.{KeyPair, Error, private_exists, public_exists, done, thrown}
use packet_distribution_syst.Keygen.Merged.{write_pairs, write_files, write_merged_keys}

-- Each key on lines of its own.
unfoldable pub lines : (KeyPair → Bytes) → List KeyPair → Bytes
lines key [] = []
lines key (pair ∷ pairs) = (key pair ++ b'\n' ∷ []) ++ lines key pairs

abbrev pub private_of : KeyPair → Bytes
private_of pair = pair.private_key

abbrev pub public_of : KeyPair → Bytes
public_of pair = pair.public_key

-- The file behind `a` after the loop.
grown : (KeyPair → Bytes) → Bytes → List KeyPair → Bytes
grown key a [] = a
grown key a (pair ∷ pairs) = grown key (a ++ (key pair ++ b'\n' ∷ [])) pairs

grown-lines :
    (key : KeyPair → Bytes) (a : Bytes) (pairs : List KeyPair)
    → grown key a pairs ≡ a ++ lines key pairs
unfolding grown lines
grown-lines key a [] = sym (append-nil a)
grown-lines key a (pair ∷ pairs) =
    grown-lines key (a ++ (key pair ++ b'\n' ∷ [])) pairs
    ∙ append_assoc a (key pair ++ b'\n' ∷ []) (lines key pairs)

module _ (F : FileSystem) (L : IsLawful F) (p q : F.FilePath) (distinct : p ≢ q) where
  -- Only the two files differ.
  abbrev Elsewhere : F.State → F.State → Type 0
  Elsewhere s t = (r : F.FilePath) → r ≢ p → r ≢ q → F.content t r ≡ F.content s r

  write_pairs-grown :
      (pairs : List KeyPair) (s : F.State) (a b : Bytes)
      → F.content s p ≡ some a
      → F.content s q ≡ some b
      → (t : F.State) × (write_pairs F pairs s (at_end F p a) (at_end F q b)
          ≡ (t, at_end F p (grown private_of a pairs), at_end F q (grown public_of b pairs)))
        × (F.content t p ≡ some (grown private_of a pairs))
        × (F.content t q ≡ some (grown public_of b pairs))
        × Elsewhere s t
  unfolding write_pairs grown
  write_pairs-grown [] s a b hp hq = (s, refl, hp, hq, λ r _ _. refl)
  write_pairs-grown (pair ∷ pairs) s a b hp hq =
      let a' = a ++ (pair.private_key ++ b'\n' ∷ []) in
      let b' = b ++ (pair.public_key ++ b'\n' ∷ []) in
      let s' = F.write s p a' in
      let hq' : F.content s' q ≡ some b =
        content-write_other F L s p q a' (λ e. distinct (sym e)) ∙ hq in
      let s'' = F.write s' q b' in
      let hp' : F.content s'' p ≡ some a' =
        content-write_other F L s' q p b' distinct ∙ content-write_self F L s p a' in
      let (t, e, tp, tq, rest) =
        write_pairs-grown pairs s'' a' b' hp' (content-write_self F L s' q b') in
      (
        t,
        rw (put_endl-put F s p a pair.private_key hp, put_endl-put F s' q b pair.public_key hq') e,
        tp,
        tq,
        λ r np nq.
            rest r np nq
            ∙ content-write_other F L s' q r b' nq
            ∙ content-write_other F L s p r a' np,
      )

  -- The files after the two streams are opened, filled and closed.
  abbrev pub Holds : List KeyPair → F.State → F.State → Type 0
  Holds pairs s t =
      (F.content t p ≡ some (lines private_of pairs))
      × (F.content t q ≡ some (lines public_of pairs))
      × Elsewhere s t

  closed :
      (s t : F.State) (a b : Bytes)
      → F.content t p ≡ some a
      → F.content t q ≡ some b
      → Elsewhere s t
      → let u = close F (close F t (at_end F p a)) (at_end F q b) in
        (F.content u p ≡ some a) × (F.content u q ≡ some b) × Elsewhere s u
  closed s t a b hp hq rest =
      let u = F.write t p a in
      let hq' : F.content u q ≡ some b =
        content-write_other F L t p q a (λ e. distinct (sym e)) ∙ hq in
      rw (close-at_end F t p a hp, close-at_end F u q b hq')
        (
          content-write_other F L u q p b distinct ∙ content-write_self F L t p a,
          content-write_self F L u q b,
          λ r np nq.
              content-write_other F L u q r b nq
              ∙ content-write_other F L t p r a np
              ∙ rest r np nq,
        )

  pub write_files-Holds :
      (pairs : List KeyPair) (s : F.State)
      → F.can_open s p ≡ true
      → F.can_open s q ≡ true
      → Holds pairs s (write_files F p q pairs s)
  unfolding write_files
  write_files-Holds pairs s open_p open_q =
      let s₁ = F.write s p [] in
      let s₂ = F.write s₁ q [] in
      let open_q₁ : F.can_open s₁ q ≡ true = L.can_open-write s p q [] ∙ open_q in
      let empty_p : F.content s₂ p ≡ some [] =
        content-write_other F L s₁ q p [] distinct ∙ content-write_self F L s p [] in
      let (t, e, tp, tq, rest) =
        write_pairs-grown pairs s₂ [] [] empty_p (content-write_self F L s₁ q []) in
      let (up, uq, elsewhere) = closed s t _ _ tp tq λ r np nq.
        rest r np nq ∙ content-write_other F L s₁ q r [] nq ∙ content-write_other F L s p r [] np in
      rw (open_file_lem F s p open_p, open_file_lem F s₁ q open_q₁, e, write_files)
        (
          up ∙ ap some (grown-lines private_of [] pairs),
          uq ∙ ap some (grown-lines public_of [] pairs),
          elsewhere,
        )

module _ (F : FileSystem) where
  -- Without `force`, if one of the files exists, the call throws and no file is touched.
  pub write_merged_keys_refuses :
      (private_name public_name : Bytes) (pairs : List KeyPair) (s : F.State)
      → (F.exists s (F.path private_name) ≡ true) ⊎ (F.exists s (F.path public_name) ≡ true)
      → (e : Error) × (write_merged_keys F private_name public_name false pairs s ≡ thrown e s)
  unfolding write_merged_keys
  write_merged_keys_refuses private_name public_name pairs s h =
      elim (Bool-cases (F.exists s (F.path private_name))) [
        | inl e ↦ (private_exists, rw e refl)
        | inr e ↦ (public_exists, ground arith)
      ]

  write_pairs_unopened :
      (pairs : List KeyPair) (s : F.State)
      → let closed_stream : Stream F = record { target = none; position = 0; buffer = [] } in
        write_pairs F pairs s closed_stream closed_stream ≡ (s, closed_stream, closed_stream)
  unfolding write_pairs put_endl
  write_pairs_unopened [] s = refl
  write_pairs_unopened (pair ∷ pairs) s = write_pairs_unopened pairs s

  -- If neither file can be opened, and either `force` is set or no such files are there, the keys are
  -- lost without an error: the call succeeds and changes nothing.
  pub write_merged_keys_unopened :
      (private_name public_name : Bytes) (force : Bool) (pairs : List KeyPair) (s : F.State)
      → F.can_open s (F.path private_name) ≡ false
      → F.can_open s (F.path public_name) ≡ false
      → (force ≡ true)
        ⊎ ((F.exists s (F.path private_name) ≡ false) × (F.exists s (F.path public_name) ≡ false))
      → write_merged_keys F private_name public_name force pairs s ≡ done s
  unfolding write_merged_keys write_files close
  write_merged_keys_unopened private_name public_name force pairs s hp hq allowed =
      let nothing : write_files F (F.path private_name) (F.path public_name) pairs s ≡ s =
        rw
          (
            open_file_refused F s _ hp,
            open_file_refused F s _ hq,
            write_pairs_unopened pairs s,
            write_files,
          )
          refl in
      ground (arith, nothing)

module _ (F : FileSystem) (L : IsLawful F) where
  -- With two files that can be opened, and `force` or no such files before, the call succeeds: each
  -- file holds the keys of its kind in order, each followed by a line end, whatever it held before,
  -- and no other file changes.
  pub write_merged_keys_done :
      (private_name public_name : Bytes) (force : Bool) (pairs : List KeyPair) (s : F.State)
      → F.path private_name ≢ F.path public_name
      → F.can_open s (F.path private_name) ≡ true
      → F.can_open s (F.path public_name) ≡ true
      → (force ≡ true)
        ⊎ ((F.exists s (F.path private_name) ≡ false) × (F.exists s (F.path public_name) ≡ false))
      → (t : F.State) × (write_merged_keys F private_name public_name force pairs s ≡ done t)
        × (F.content t (F.path private_name) ≡ some (lines private_of pairs))
        × (F.content t (F.path public_name) ≡ some (lines public_of pairs))
        × ((r : F.FilePath)
            → r ≢ F.path private_name
            → r ≢ F.path public_name
            → F.content t r ≡ F.content s r)
  unfolding write_merged_keys
  write_merged_keys_done private_name public_name force pairs s distinct open_p open_q allowed =
      let (up, uq, rest) = write_files-Holds F L _ _ distinct pairs s open_p open_q in
      (write_files F _ _ pairs s, ground arith, up, uq, rest)
