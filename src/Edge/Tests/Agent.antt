-- ===== src/Edge/Tests/Agent.antt =====
-- A run of the agent that is told to stop at the third round, with one broken connection.
use nirantara.Common.{◌≡◌, refl, true, some, ltb, ◌==◌}
use nirantara.Common.Text.{codes}
use nirantara.Edge.Agent.{System, ensure_dir, strrchr}

abbrev system : System
system = record {
  env = λ name. some (codes "70000");
  opens_db = λ path. true;
  sets_up = λ path. true;
  starts_thread = true;
  new_client = λ name. true;
  tls_set = λ ca cert key. true;
  connect = λ host port. true;
  running = λ k. ltb k 2;
  loops = λ k. k == 0;
}

dir_of_buffer : ensure_dir (codes "/var/lib/edge.db") ≡ some (codes "/var/lib")
unfolding ensure_dir strrchr
dir_of_buffer = refl
