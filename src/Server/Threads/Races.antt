-- ===== src/Server/Threads/Races.antt =====
-- The race on connections_.
use packet_distribution_syst.Prelude.{ℕ, ◌≤◌, refl, Bool, false, arith}
use packet_distribution_syst.Server.Connections.{construct, do_accept, DispatcherSession}
use packet_distribution_syst.Server.Threads.{
  waiting, appending, erasing, Program, begin_append, begin_erase, undefined, started, Reach, start,
  later, Races, assign, IsDefined,
}

abbrev none_closed : DispatcherSession → Bool
none_closed session = false

-- One thread is in the accept handler, another in the first round of cleanup_task.
unfoldable pub racing : Program
unfolding construct do_accept
racing = record {
  server = record (construct) { accepting = false };
  suspended = false;
  work = assign (assign (λ _. waiting) 0 (appending 0)) 1 (erasing none_closed);
}

-- On two threads or more, as main starts them, a run without a race before leads to one: the accept
-- handler appends to connections_ while cleanup_task erases from it, since no code locks
-- connection_access. From there nothing is promised any more.
pub race_reachable :
    (n : ℕ)
    → 2 ≤ n
    → (s : Program) × (r : Reach n s) × IsDefined r × Races s × ((t : Program) → Reach n t)
unfolding IsDefined racing construct do_accept
race_reachable n two =
    let r₀ : Reach n started = start in
    let r₁ = later r₀ (begin_append 0 0 (omega arith) refl refl) in
    let r₂ : Reach n racing = later r₁ (begin_erase 1 none_closed (omega arith) refl refl) in
    let race : Races racing = (0, 1, refl, refl) in
    (
      racing,
      r₂,
      ((tt, λ (i, j, a, e). ground (arith, a)), λ (i, j, a, e). ground (arith, e)),
      race,
      λ t. later r₂ (undefined race t),
    )
