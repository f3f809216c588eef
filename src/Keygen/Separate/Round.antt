-- ===== src/Keygen/Separate/Round.antt =====
-- What one round of WriteSeparateKeys leaves behind, whether it gets to the end or throws on the way.
use mathlib.Core.Path.{subst}
use mathlib.Core.Option.{some-injective}
use packet_distribution_syst.Prelude.{
  ap, ℕ, ◌≡◌, ◌≢◌, refl, sym, ◌∙◌, ◌⊎◌, inl, inr, Bool, true, not, ◌&&◌, some, [], Bool-cases,
  Option-cases,
}
use packet_distribution_syst.Archive.{Bytes}
use packet_distribution_syst.Files.{FileSystem}
use packet_distribution_syst.Files.Laws.{
  IsLawful, content-write_self, content-write_other, open_file_lem, close-put,
}
use packet_distribution_syst.Keygen.{KeyPair, filesystem_error, Result, done, thrown, overflow}
use packet_distribution_syst.Keygen.Separate.{
  private_name, public_name, create, write_pair, write_round, ◌>>=◌,
}
use packet_distribution_syst.Keygen.Separate.Names.{private_path-ne-public_path}

module _ (F : FileSystem) (private_folder public_folder : F.FilePath) where
  -- The files of pair number `i`.
  abbrev pub Holds : ℕ → KeyPair → F.State → Type 0
  Holds i pair t =
      (F.content t (F.join private_folder (private_name i)) ≡ some pair.private_key)
      × (F.content t (F.join public_folder (public_name i)) ≡ some pair.public_key)

  abbrev pub Untouched : F.State → F.State → Type 0
  Untouched s t = (r : F.FilePath) → F.content t r ≡ F.content s r

  -- Every file but those of pair number `i`.
  abbrev pub Elsewhere : ℕ → F.State → F.State → Type 0
  Elsewhere i s t =
      (r : F.FilePath)
      → r ≢ F.join private_folder (private_name i)
      → r ≢ F.join public_folder (public_name i)
      → F.content t r ≡ F.content s r

  -- The numbered files open.
  abbrev pub Opens : F.State → Type 0
  Opens s =
      (i : ℕ)
      → (F.can_open s (F.join private_folder (private_name i)) ≡ true)
        × (F.can_open s (F.join public_folder (public_name i)) ≡ true)

  -- Once both folders are created, the numbered files open.
  abbrev pub OpensCreated : F.State → Type 0
  OpensCreated s =
      (s₁ s₂ : F.State)
      → F.create_directories s private_folder ≡ some s₁
      → F.create_directories s₁ public_folder ≡ some s₂
      → Opens s₂

  -- Both folders can be created.
  abbrev pub Creates : F.State → Type 0
  Creates s =
      (s₁ : F.State) × (s₂ : F.State) × (F.create_directories s private_folder ≡ some s₁)
      × (F.create_directories s₁ public_folder ≡ some s₂)

  -- Both folders are there.
  abbrev pub HasFolders : F.State → Type 0
  HasFolders s = (F.is_directory s private_folder ≡ true) × (F.is_directory s public_folder ≡ true)

  -- What one round does.
  abbrev pub Round : ℕ → KeyPair → F.State → Result F.State → Type 0
  Round i pair s (done t) = Holds i pair t × Elsewhere i s t × Opens t × HasFolders t
  Round i pair s (thrown e t) = Untouched s t
  Round i pair s overflow = ⊥

module _ (F : FileSystem) (L : IsLawful F) (private_folder public_folder : F.FilePath) where
  Opens-write :
      (s : F.State) (p : F.FilePath) (b : Bytes)
      → Opens F private_folder public_folder s
      → Opens F private_folder public_folder (F.write s p b)
  Opens-write s p b opens i =
      (L.can_open-write s p _ b ∙ (opens i).0, L.can_open-write s p _ b ∙ (opens i).1)

  HasFolders-write :
      (s : F.State) (p : F.FilePath) (b : Bytes)
      → HasFolders F private_folder public_folder s
      → HasFolders F private_folder public_folder (F.write s p b)
  HasFolders-write s p b (hp, hq) =
      (L.is_directory-write s p _ b hp, L.is_directory-write s p _ b hq)

  -- Where both folders are there, creating them changes nothing.
  pub HasFolders-OpensCreated :
      (s : F.State)
      → Opens F private_folder public_folder s
      → HasFolders F private_folder public_folder s
      → OpensCreated F private_folder public_folder s
  HasFolders-OpensCreated s opens (hp, hq) s₁ s₂ e f =
      let first : s ≡ s₁ =
        some-injective s s₁ (sym (L.create_directories-again s private_folder hp) ∙ e) in
      let second : s ≡ s₂ = some-injective s s₂ (
        sym (L.create_directories-again s public_folder hq)
        ∙ ap (λ t. F.create_directories t public_folder) first
        ∙ f) in
      subst (Opens F private_folder public_folder) second opens

  pub HasFolders-Creates :
      (s : F.State)
      → HasFolders F private_folder public_folder s
      → Creates F private_folder public_folder s
  HasFolders-Creates s (hp, hq) = (
    s,
    s,
    L.create_directories-again s private_folder hp,
    L.create_directories-again s public_folder hq,
  )

  write_pair-Round :
      (i : ℕ) (pair : KeyPair) (s : F.State)
      → Opens F private_folder public_folder s
      → HasFolders F private_folder public_folder s
      → Round F private_folder public_folder i pair s (
          done (
            write_pair F
              (F.join private_folder (private_name i))
              (F.join public_folder (public_name i))
              pair
              s))
  unfolding write_pair
  write_pair-Round i pair s opens has =
      let (open_p, open_q) = opens i in
      let p = F.join private_folder (private_name i) in
      let q = F.join public_folder (public_name i) in
      let distinct : p ≢ q = private_path-ne-public_path F L private_folder public_folder i i in
      let s₁ = F.write s p [] in
      let s₂ = F.write s₁ q [] in
      let s₃ = F.write s₂ p pair.private_key in
      let open_q₁ : F.can_open s₁ q ≡ true = L.can_open-write s p q [] ∙ open_q in
      let empty_p : F.content s₂ p ≡ some [] =
        content-write_other F L s₁ q p [] distinct ∙ content-write_self F L s p [] in
      let empty_q : F.content s₃ q ≡ some [] =
        content-write_other F L s₂ p q pair.private_key (λ e. distinct (sym e))
        ∙ content-write_self F L s₁ q [] in
      rw
        (
          open_file_lem F s p open_p,
          open_file_lem F s₁ q open_q₁,
          close-put F s₂ p [] pair.private_key empty_p,
          close-put F s₃ q [] pair.public_key empty_q,
          write_pair,
        )
        (
          (
            content-write_other F L s₃ q p pair.public_key distinct
                ∙ content-write_self F L s₂ p pair.private_key,
            content-write_self F L s₃ q pair.public_key,
          ),
          λ r np nq.
              content-write_other F L s₃ q r pair.public_key nq
              ∙ content-write_other F L s₂ p r pair.private_key np
              ∙ content-write_other F L s₁ q r [] nq
              ∙ content-write_other F L s p r [] np,
          Opens-write _ _ _ (Opens-write _ _ _ (Opens-write _ _ _ (Opens-write _ _ _ opens))),
          HasFolders-write _ _ _
              (HasFolders-write _ _ _ (HasFolders-write _ _ _ (HasFolders-write _ _ _ has))),
        )

module _ (F : FileSystem) (L : IsLawful F) where
  create-cases :
      (folder : F.FilePath) (s : F.State)
      → (create F folder s ≡ thrown filesystem_error s)
        ⊎ ((t : F.State) × (create F folder s ≡ done t)
            × (F.create_directories s folder ≡ some t)
            × ((r : F.FilePath) → F.content t r ≡ F.content s r))
  unfolding create
  create-cases folder s = elim (Option-cases (F.create_directories s folder)) [
    | inl e ↦ inl (rw (e, create) refl)
    | inr (t, e) ↦ inr (t, rw (e, create) refl, e, λ r. L.content-create_directories s t folder r e)
  ]

module _ (F : FileSystem) (L : IsLawful F) (private_folder public_folder : F.FilePath) where
  created-Round :
      (i : ℕ) (pair : KeyPair) (s : F.State)
      → OpensCreated F private_folder public_folder s
      → Round F private_folder public_folder i pair s (
          create F private_folder s >>= λ s₁. create F public_folder s₁ >>= λ s₂. done (
            write_pair F
              (F.join private_folder (private_name i))
              (F.join public_folder (public_name i))
              pair
              s₂))
  created-Round i pair s opens = elim (create-cases F L private_folder s) [
    | inl e ↦ rw e (λ r. refl)
    | inr (s₁, e, made, same) ↦ rw e (elim (create-cases F L public_folder s₁) [
      | inl f ↦ rw f same
      | inr (s₂, f, made', same') ↦
          let (holds, rest, opened, has) =
            write_pair-Round F L private_folder public_folder i pair s₂ (opens s₁ s₂ made made') (
              L.is_directory-kept s₁ s₂ _ _ made' (L.is_directory-create_directories s s₁ _ made),
              L.is_directory-create_directories s₁ s₂ _ made',
            ) in
          rw f (holds, (λ r np nq. rest r np nq ∙ same' r ∙ same r), opened, has)
    ])
  ]

  pub write_round-Round :
      (force : Bool) (i : ℕ) (pair : KeyPair) (s : F.State)
      → OpensCreated F private_folder public_folder s
      → Round F private_folder public_folder i pair s
          (write_round F private_folder public_folder force i pair s)
  unfolding write_round
  write_round-Round force i pair s opens =
      elim (Bool-cases (not force && F.exists s (F.join private_folder (private_name i)))) [
        | inl e ↦ rw (e, write_round) (λ r. refl)
        | inr e ↦
            elim (Bool-cases (not force && F.exists s (F.join public_folder (public_name i)))) [
              | inl f ↦ rw (e, f, write_round) (λ r. refl)
              | inr f ↦ rw (e, f, write_round) (created-Round i pair s opens)
            ]
      ]
