-- ===== src/Enrollment/Tests/Service.antt =====
-- A service that is asked twice, once in between interrupted, and then fails to accept.
use nirantara.Common.{true, List, [], ◌∷◌}
use nirantara.Enrollment.Http.{took}
use nirantara.Enrollment.Server.{
  Client, Accepted, client, accept_interrupted, accept_failed, Sockets,
}

abbrev sockets : Sockets
sockets = record {
  has_socket = true;
  reuses_address = true;
  is_address = λ text. true;
  binds = λ text port. true;
  listens = true;
}

abbrev silent : Client
silent = record { received = []; header_calls = took 1000 ∷ []; body_calls = took 1000 ∷ [] }

abbrev calls : List Accepted
calls = client silent ∷ accept_interrupted ∷ client silent ∷ accept_failed ∷ []
