-- ===== src/Server/Connections/Survival.antt =====
-- Which sessions the server keeps, told without its state.
use mathlib.Core.Bool.{not, ◌&&◌}
use packet_distribution_syst.Prelude.{
  ◌≡◌, refl, ap, ◌∙◌, sym, Bool, true, List, [], ◌∷◌, ◌++◌, append_assoc, append-nil, if◌then◌else◌,
  arith,
}
use packet_distribution_syst.Server.Connections.{
  DispatcherSession, TcpServer, Accepted, failed, connected, Event, accept, cleanup, new_session,
  erase_if, step, run,
}

-- No later round of the cleanup finds the session closed.
unfoldable pub outlives : List Event → DispatcherSession → Bool
outlives [] session = true
outlives (accept result ∷ events) session = outlives events session
outlives (cleanup is_closed ∷ events) session = not (is_closed session) && outlives events session

unfoldable pub keep : (DispatcherSession → Bool) → List DispatcherSession → List DispatcherSession
keep p [] = []
keep p (session ∷ sessions) =
    let rest = keep p sessions in if p session then session ∷ rest else rest

-- The sessions that are accepted on the way and outlive what follows.
unfoldable pub survivors : List Event → List DispatcherSession
survivors [] = []
survivors (accept (failed ec) ∷ events) = survivors events
survivors (accept (connected socket) ∷ events) =
    keep (outlives events) (new_session socket ∷ []) ++ survivors events
survivors (cleanup is_closed ∷ events) = survivors events

keep-append :
    (p : DispatcherSession → Bool) (xs ys : List DispatcherSession)
    → keep p (xs ++ ys) ≡ keep p xs ++ keep p ys
unfolding keep
keep-append p [] ys = refl
keep-append p (x ∷ xs) ys = ground (arith, keep-append p xs ys)

keep-true : (xs : List DispatcherSession) → keep (outlives []) xs ≡ xs
unfolding keep outlives
keep-true [] = refl
keep-true (x ∷ xs) = ap (λ r. x ∷ r) (keep-true xs)

keep-erase_if :
    (is_closed : DispatcherSession → Bool) (events : List Event) (xs : List DispatcherSession)
    → keep (outlives events) (erase_if is_closed xs)
      ≡ keep (outlives (cleanup is_closed ∷ events)) xs
unfolding keep erase_if outlives
keep-erase_if is_closed events [] = refl
keep-erase_if is_closed events (x ∷ xs) = ground (arith, keep-erase_if is_closed events xs)

keep-accept :
    (result : Accepted) (events : List Event) (xs : List DispatcherSession)
    → keep (outlives (accept result ∷ events)) xs ≡ keep (outlives events) xs
unfolding keep outlives
keep-accept result events [] = refl
keep-accept result events (x ∷ xs) = ground (arith, keep-accept result events xs)

-- After any events the server holds, in the order of their acceptance, the sessions that it held
-- or accepted and that no later cleanup found closed.
pub connections-run :
    (server : TcpServer) (events : List Event)
    → (run server events).connections
      ≡ keep (outlives events) server.connections ++ survivors events
unfolding run survivors step
connections-run server [] = sym (append-nil _ ∙ keep-true _)
connections-run server (accept (failed ec) ∷ events) =
    connections-run _ events
    ∙ ap (λ xs. xs ++ survivors events) (sym (keep-accept (failed ec) events server.connections))
connections-run server (accept (connected socket) ∷ events) =
    connections-run _ events
    ∙ ap (λ xs. xs ++ survivors events)
        (keep-append (outlives events) server.connections (new_session socket ∷ []))
    ∙ append_assoc (keep (outlives events) server.connections) _ _
    ∙ ap (λ xs. xs ++ (keep (outlives events) (new_session socket ∷ []) ++ survivors events))
        (sym (keep-accept (connected socket) events server.connections))
connections-run server (cleanup is_closed ∷ events) =
    connections-run _ events
    ∙ ap (λ xs. xs ++ survivors events) (keep-erase_if is_closed events server.connections)
