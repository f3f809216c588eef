-- ===== src/Server/Threads/Token.antt =====
-- Work that one thread at most is at: it can be taken when it is available, and is given back.
use packet_distribution_syst.Prelude.{
  ℕ, ◌<◌, ◌≡◌, Bool, true, false, if◌then◌else◌, ◌==◌, arith, Bool-cases, inl, inr,
}
use packet_distribution_syst.Server.Threads.{Work, assign}

pub record Token (n : ℕ) (available : Bool) (holds : ℕ → Bool) : Type 0 where
  pub taken : available ≡ false → (i : ℕ) × (i < n) × (holds i ≡ true)
  pub free : available ≡ true → (i : ℕ) → holds i ≡ false
  pub unique : (i j : ℕ) → holds i ≡ true → holds j ≡ true → i ≡ j

-- What the test says of a thread's work after the assignment.
assigned :
    (test : Work → Bool) (work : ℕ → Work) (i : ℕ) (w : Work) (j : ℕ)
    → test (assign work i w j) ≡ (if i == j then test w else test (work j))
assigned test work i w j = ground arith

module _ (test : Work → Bool) {n : ℕ} {work : ℕ → Work} (i : ℕ) (w : Work) (bound : i < n) where
  pub take :
      {available : Bool}
      → available ≡ true
      → Token n available (λ j. test (work j))
      → test w ≡ true
      → Token n false (λ j. test (assign work i w j))
  take is_available token holds = record {
    taken = λ _. (i, bound, ground (arith, assigned test work i w i));
    free = λ e j. absurd (ground (arith, e));
    unique = λ j k hj hk. ground (
      arith,
      assigned test work i w j,
      assigned test work i w k,
      token.free is_available j,
      token.free is_available k,
    );
  }

  pub give :
      {available : Bool}
      → Token n available (λ j. test (work j))
      → test (work i) ≡ true
      → test w ≡ false
      → Token n true (λ j. test (assign work i w j))
  give token was holds = record {
    taken = λ e. absurd (ground (arith, e));
    free = λ e j. elim (Bool-cases (test (work j))) [
      | inl h ↦ ground (arith, assigned test work i w j, token.unique i j was h)
      | inr h ↦ ground (arith, assigned test work i w j)
    ];
    unique = λ j k hj hk.
        ground (arith, assigned test work i w j, assigned test work i w k, token.unique j k);
  }

  pub keep :
      {available : Bool}
      → Token n available (λ j. test (work j))
      → test (work i) ≡ false
      → test w ≡ false
      → Token n available (λ j. test (assign work i w j))
  keep token was holds = record {
    taken = λ e. let (j, b, h) = token.taken e in (j, b, ground (arith, assigned test work i w j));
    free = λ e j. ground (arith, assigned test work i w j, token.free e j);
    unique = λ j k hj hk.
        ground (arith, assigned test work i w j, assigned test work i w k, token.unique j k);
  }
