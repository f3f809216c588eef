-- ===== src/Keygen/Separate/Contents.antt =====
-- What WriteSeparateKeys leaves behind, whether it gets to the end or throws on the way.
use packet_distribution_syst.Prelude.{
  ◌+◌, ◌≤◌, ltb, Bool-cases, ℕ, suc, ◌<◌, ◌≡◌, ◌≢◌, refl, sym, ◌∙◌, ◌⊎◌, inl, inr, Bool, true, List,
  [], ◌∷◌, length, take, arith,
}
use packet_distribution_syst.Archive.{Bytes}
use packet_distribution_syst.Files.{FileSystem}
use packet_distribution_syst.Files.Laws.{IsLawful}
use packet_distribution_syst.Keygen.{KeyPair, Error, Result, done, thrown, overflow}
use packet_distribution_syst.Keygen.Separate.{
  private_name, public_name, create, write_pair, write_round, write_rounds, write_separate_keys,
}
use packet_distribution_syst.Keygen.Separate.Names.{
  private_path-injective, public_path-injective, private_path-ne-public_path,
}
use packet_distribution_syst.Keygen.Separate.Round.{
  Holds, Elsewhere, Round, OpensCreated, Creates, write_round-Round, HasFolders-OpensCreated,
  HasFolders-Creates,
}

Result-cases :
    {S : Type 0} (r : Result S)
    → ((t : S) × (r ≡ done t)) ⊎ ((e : Error) × (t : S) × (r ≡ thrown e t)) ⊎ (r ≡ overflow)
Result-cases (done t) = inl (t, refl)
Result-cases (thrown e t) = inr (inl (e, t, refl))
Result-cases overflow = inr (inr refl)

ne_of_lt : {i j : ℕ} → i ≡ j → ¬ (i < j)
ne_of_lt e h = omega arith

module _ (F : FileSystem) (private_folder public_folder : F.FilePath) where
  -- The files of the pairs behind the first `i`.
  unfoldable pub Stored : ℕ → List KeyPair → F.State → Type 0
  Stored i [] t = Unit
  Stored i (pair ∷ pairs) t =
      Holds F private_folder public_folder (suc i) pair t × Stored (suc i) pairs t

  -- No file of a pair behind the first `i`.
  abbrev IsForeign : ℕ → F.FilePath → Type 0
  IsForeign i r =
      (j : ℕ)
      → i < j
      → (r ≢ F.join private_folder (private_name j)) × (r ≢ F.join public_folder (public_name j))

  abbrev Frame : ℕ → F.State → F.State → Type 0
  Frame i s t = (r : F.FilePath) → IsForeign i r → F.content t r ≡ F.content s r

  -- What the loop does: all pairs are stored, or it throws with the first `k` stored, or there are
  -- more pairs than an int counts.
  abbrev pub Rounds : ℕ → List KeyPair → F.State → Result F.State → Type 0
  Rounds i pairs s (done t) = Stored i pairs t × Frame i s t
  Rounds i pairs s (thrown e t) =
      (k : ℕ) × (k < length pairs) × Stored i (take k pairs) t × Frame i s t
  Rounds i pairs s overflow = 0x8000_0000 ≤ i + length pairs

module _ (F : FileSystem) (L : IsLawful F) (private_folder public_folder : F.FilePath) where
  private_path-IsForeign :
      (i : ℕ) → IsForeign F private_folder public_folder i (F.join private_folder (private_name i))
  private_path-IsForeign i j h = (
    λ e. absurd (ne_of_lt (private_path-injective F L private_folder public_folder i j e) h),
    private_path-ne-public_path F L private_folder public_folder i j,
  )

  public_path-IsForeign :
      (i : ℕ) → IsForeign F private_folder public_folder i (F.join public_folder (public_name i))
  public_path-IsForeign i j h = (
    λ e. private_path-ne-public_path F L private_folder public_folder j i (sym e),
    λ e. absurd (ne_of_lt (public_path-injective F L private_folder public_folder i j e) h),
  )

  IsForeign-suc :
      (i : ℕ) (r : F.FilePath)
      → IsForeign F private_folder public_folder i r
      → IsForeign F private_folder public_folder (suc i) r
  IsForeign-suc i r foreign j h = foreign j (omega arith)

  -- Later rounds leave the files of pair number `i` alone.
  Holds-Frame :
      (i : ℕ) (pair : KeyPair) (s t : F.State)
      → Holds F private_folder public_folder i pair s
      → Frame F private_folder public_folder i s t
      → Holds F private_folder public_folder i pair t
  Holds-Frame i pair s t (hp, hq) frame =
      (frame _ (private_path-IsForeign i) ∙ hp, frame _ (public_path-IsForeign i) ∙ hq)

  Frame-Elsewhere :
      (i : ℕ) (s t u : F.State)
      → Elsewhere F private_folder public_folder (suc i) s t
      → Frame F private_folder public_folder (suc i) t u
      → Frame F private_folder public_folder i s u
  Frame-Elsewhere i s t u elsewhere frame r foreign =
      let (np, nq) = foreign (suc i) (omega arith) in
      frame r (IsForeign-suc i r foreign) ∙ elsewhere r np nq

  -- One round and then the rest.
  cons-Rounds :
      (i : ℕ) (pair : KeyPair) (pairs : List KeyPair) (s t : F.State) (rest : Result F.State)
      → Round F private_folder public_folder (suc i) pair s (done t)
      → Rounds F private_folder public_folder (suc i) pairs t rest
      → Rounds F private_folder public_folder i (pair ∷ pairs) s rest
  unfolding Stored
  cons-Rounds i pair pairs s t (done u) (holds, elsewhere, _, _) (stored, frame) =
      ((Holds-Frame (suc i) pair t u holds frame, stored), Frame-Elsewhere i s t u elsewhere frame)
  cons-Rounds i pair pairs s t (thrown e u) (holds, elsewhere, _, _) (k, lt, stored, frame) = (
    suc k,
    omega arith,
    (Holds-Frame (suc i) pair t u holds frame, stored),
    Frame-Elsewhere i s t u elsewhere frame,
  )
  cons-Rounds i pair pairs s t overflow round many = omega arith

module _ (F : FileSystem) (L : IsLawful F) (private_folder public_folder : F.FilePath) where
  pub write_rounds-Rounds :
      (force : Bool) (i : ℕ) (pairs : List KeyPair) (s : F.State)
      → OpensCreated F private_folder public_folder s
      → Rounds F private_folder public_folder i pairs s
          (write_rounds F private_folder public_folder force i pairs s)
  unfolding write_rounds Stored
  write_rounds-Rounds force i [] s opens = (tt, λ r _. refl)
  write_rounds-Rounds force i (pair ∷ pairs) s opens =
      let round = write_round-Round F L private_folder public_folder force (suc i) pair s opens in
      elim (Bool-cases (ltb i 0x7fff_ffff)) [
        | inr many ↦ rw many (ground arith)
        | inl few ↦
            rw few
              (elim (Result-cases
                (write_round F private_folder public_folder force (suc i) pair s)) [
                  | inl (t, e) ↦
                      let here : Round F private_folder public_folder (suc i) pair s (done t) =
                        rw e at round in
                      rw e (
                        cons-Rounds F L private_folder public_folder i pair pairs s t _ here (
                          write_rounds-Rounds force (suc i) pairs t (
                            HasFolders-OpensCreated F L private_folder public_folder t here.2
                              here.3)))
                  | inr (inl (x, t, e)) ↦ rw e (0, omega arith, tt, λ r _. (rw e at round) r)
                  | inr (inr e) ↦ absurd (rw e at round)
                ])
      ]

  write_rounds_forced :
      (i : ℕ) (pairs : List KeyPair) (s : F.State)
      → i + length pairs < 0x8000_0000
      → OpensCreated F private_folder public_folder s
      → Creates F private_folder public_folder s
      → (t : F.State) × (write_rounds F private_folder public_folder true i pairs s ≡ done t)
  unfolding write_rounds write_round
  write_rounds_forced i [] s few opens creates = (s, refl)
  write_rounds_forced i (pair ∷ pairs) s few opens (s₁, s₂, e, f) =
      let s₃ =
        write_pair F (F.join private_folder (private_name (suc i)))
          (F.join public_folder (public_name (suc i))) pair s₂ in
      let stored : write_round F private_folder public_folder true (suc i) pair s ≡ done s₃ =
        rw (e, f, create, write_round) refl in
      let settled : Round F private_folder public_folder (suc i) pair s (done s₃) =
        rw stored at
          (write_round-Round F L private_folder public_folder true (suc i) pair s opens) in
      let (t, g) =
        write_rounds_forced (suc i) pairs s₃ (omega arith)
          (HasFolders-OpensCreated F L private_folder public_folder s₃ settled.2 settled.3)
          (HasFolders-Creates F L private_folder public_folder s₃ settled.3) in
      let counts : ltb i 0x7fff_ffff ≡ true = ground arith in (t, rw (counts, stored) g)

module _ (F : FileSystem) (L : IsLawful F)
    (private_key_output_folder public_key_output_folder : Bytes) where
  abbrev private_folder : F.FilePath
  private_folder = F.path private_key_output_folder

  abbrev public_folder : F.FilePath
  public_folder = F.path public_key_output_folder

  pub write_separate_keys-Rounds :
      (force : Bool) (pairs : List KeyPair) (s : F.State)
      → OpensCreated F private_folder public_folder s
      → Rounds F private_folder public_folder 0 pairs s
          (write_separate_keys F private_key_output_folder public_key_output_folder force pairs s)
  unfolding write_separate_keys
  write_separate_keys-Rounds force pairs s opens =
      write_rounds-Rounds F L private_folder public_folder force 0 pairs s opens

  -- With `force` and fewer than 2 ^ 31 pairs, where both folders can be created and the numbered files
  -- open then, the call returns with all pairs stored.
  pub write_separate_keys_forced :
      (pairs : List KeyPair) (s : F.State)
      → length pairs < 0x8000_0000
      → OpensCreated F private_folder public_folder s
      → Creates F private_folder public_folder s
      → (t : F.State) × (write_separate_keys F private_key_output_folder public_key_output_folder
            true pairs s
          ≡ done t)
        × Stored F private_folder public_folder 0 pairs t
  unfolding write_separate_keys
  write_separate_keys_forced pairs s few opens creates =
      let (t, e) =
        write_rounds_forced F L private_folder public_folder 0 pairs s (omega (arith, few)) opens
          creates in
      (t, e, (rw e at (write_separate_keys-Rounds true pairs s opens)).0)
