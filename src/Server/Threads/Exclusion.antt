-- ===== src/Server/Threads/Exclusion.antt =====
-- Which handlers can run at the same time.
use mathlib.Core.Path.{subst}
use packet_distribution_syst.Prelude.{
  ℕ, ◌<◌, ◌≡◌, refl, ap, Bool, true, false, arith, ◌⊎◌, inl, inr, Bool-cases,
}
use packet_distribution_syst.Server.Connections.{
  construct, do_accept, accept_handler, cleanup_task, setup_new_connection,
}
use packet_distribution_syst.Server.Threads.{
  waiting, appending, erasing, Program, Step, accept_fails, begin_append, end_append, begin_erase,
  end_erase, undefined, Reach, start, later, appends, erases, Races, IsDefined,
}
use packet_distribution_syst.Server.Threads.Token.{Token, take, give, keep}

pub record Inv (n : ℕ) (s : Program) : Type 0 where
  pub accepting : Token n s.server.accepting (λ i. appends (s.work i))
  pub cleanup : Token n s.suspended (λ i. erases (s.work i))

unheld : {n : ℕ} → Token n true (λ _. false)
unheld = record {
  taken = λ e. ground (arith, e);
  free = λ _ _. refl;
  unique = λ i j e _. ground (arith, e);
}

Step-Inv : {n : ℕ} {s t : Program} → Step n s t → ¬ Races s → Inv n s → Inv n t
unfolding accept_handler do_accept cleanup_task setup_new_connection
Step-Inv {n} {s} (accept_fails i ec bound e a) quiet inv = record {
  accepting = subst (λ b. Token n b (λ i. appends (s.work i))) a inv.accepting;
  cleanup = inv.cleanup;
}
Step-Inv (begin_append i socket bound e a) quiet inv = record {
  accepting = take appends i (appending socket) bound a inv.accepting refl;
  cleanup = keep erases i (appending socket) bound inv.cleanup (ap erases e) refl;
}
Step-Inv (end_append i socket bound e) quiet inv = record {
  accepting = give appends i waiting bound inv.accepting (ap appends e) refl;
  cleanup = keep erases i waiting bound inv.cleanup (ap erases e) refl;
}
Step-Inv (begin_erase i is_closed bound e a) quiet inv = record {
  accepting = keep appends i (erasing is_closed) bound inv.accepting (ap appends e) refl;
  cleanup = take erases i (erasing is_closed) bound a inv.cleanup refl;
}
Step-Inv (end_erase i is_closed bound e) quiet inv = record {
  accepting = keep appends i waiting bound inv.accepting (ap appends e) refl;
  cleanup = give erases i waiting bound inv.cleanup (ap erases e) refl;
}
Step-Inv (undefined races t) quiet inv = absurd (quiet races)

pub Reach-Inv : {n : ℕ} {s : Program} → (r : Reach n s) → IsDefined r → Inv n s
unfolding IsDefined construct do_accept
Reach-Inv start d = record { accepting = unheld; cleanup = unheld }
Reach-Inv (later r step) d = Step-Inv step d.1 (Reach-Inv r d.0)

-- However the threads interleave, as long as no state on the way has a race on connections_, the
-- accept handler runs on one thread at most and so does cleanup_task; and the server is never left
-- without an accept: either one is pending and no thread is in the handler, or a thread is in the
-- handler, at whose end it accepts again.
pub handlers_exclusive :
    {n : ℕ} {s : Program} (r : Reach n s)
    → IsDefined r
    → ((i j : ℕ) → appends (s.work i) ≡ true → appends (s.work j) ≡ true → i ≡ j)
      × ((i j : ℕ) → erases (s.work i) ≡ true → erases (s.work j) ≡ true → i ≡ j)
      × (((s.server.accepting ≡ true) × ((i : ℕ) → appends (s.work i) ≡ false))
          ⊎ ((s.server.accepting ≡ false) × ((i : ℕ) × (i < n) × (appends (s.work i) ≡ true))))
handlers_exclusive {s} r d =
    let inv = Reach-Inv r d in
    (
      inv.accepting.unique,
      inv.cleanup.unique,
      elim (Bool-cases s.server.accepting) [
        | inl e ↦ inl (e, inv.accepting.free e)
        | inr e ↦ inr (e, inv.accepting.taken e)
      ],
    )

-- A thread in a handler is one of the threads.
bound_of :
    {n : ℕ} {a : Bool} {holds : ℕ → Bool} → Token n a holds → (i : ℕ) → holds i ≡ true → i < n
bound_of {a} token i h = elim (Bool-cases a) [
  | inl e ↦ ground (arith, token.free e i)
  | inr e ↦ let (j, b, hj) = token.taken e in ground (arith, token.unique i j h hj)
]

pub appends_bound : {n : ℕ} {s : Program} → Inv n s → (i : ℕ) → appends (s.work i) ≡ true → i < n
appends_bound inv i h = bound_of inv.accepting i h

pub erases_bound : {n : ℕ} {s : Program} → Inv n s → (i : ℕ) → erases (s.work i) ≡ true → i < n
erases_bound inv i h = bound_of inv.cleanup i h
