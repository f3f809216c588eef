-- ===== src/Tests/Threads.antt =====
-- The threads of central_server/main.cpp at concrete interleavings.
use packet_distribution_syst.Prelude.{ℕ, ◌<◌, ◌≡◌, ◌⊎◌, refl, true, false, arith}
use packet_distribution_syst.Server.Connections.{
  construct, do_accept, accept_handler, setup_new_connection,
}
use packet_distribution_syst.Server.Threads.{
  Program, begin_append, end_append, begin_erase, Reach, start, later, appends, erases, Races,
  IsDefined,
}
use packet_distribution_syst.Server.Threads.Exclusion.{handlers_exclusive}
use packet_distribution_syst.Server.Threads.Races.{race_reachable}

-- A connection is accepted on the third thread, and the cleanup begins on the fifth.
unfoldable cleaning : (s : Program) × Reach 8 s
unfolding construct do_accept accept_handler setup_new_connection
cleaning = (
  _,
  later
      (later (later start (begin_append 3 7 (omega arith) refl refl))
        (end_append 3 7 (omega arith) refl))
      (begin_erase 5 (λ _. false) (omega arith) refl refl),
)

cleaning-IsDefined : IsDefined cleaning.1
unfolding cleaning IsDefined
cleaning-IsDefined = (
  ((tt, λ (i, j, a, e). ground (arith, e)), λ (i, j, a, e). ground (arith, e)),
  λ (i, j, a, e). ground (arith, e),
)

handlers_exclusive_example :
    let s = cleaning.0 in
    ((i j : ℕ) → appends (s.work i) ≡ true → appends (s.work j) ≡ true → i ≡ j)
    × ((i j : ℕ) → erases (s.work i) ≡ true → erases (s.work j) ≡ true → i ≡ j)
    × (((s.server.accepting ≡ true) × ((i : ℕ) → appends (s.work i) ≡ false))
        ⊎ ((s.server.accepting ≡ false) × ((i : ℕ) × (i < 8) × (appends (s.work i) ≡ true))))
handlers_exclusive_example = handlers_exclusive cleaning.1 cleaning-IsDefined

race_reachable_example :
    (s : Program) × (r : Reach 8 s) × IsDefined r × Races s × ((t : Program) → Reach 8 t)
race_reachable_example = race_reachable 8 (omega arith)
