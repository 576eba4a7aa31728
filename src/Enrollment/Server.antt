-- ===== src/Enrollment/Server.antt =====
-- The listening socket and the loop over the clients of enrollment/src/http.c, and
-- enrollment/src/main.c.
pub mod Serving
use nirantara.Common.{
  ℕ, ◌≡◌, refl, ap, ◌∙◌, sym, Bool, true, false, not, ◌&&◌, ◌⊎◌, inl, inr, Option, none, some, List,
  [], ◌∷◌, if◌then◌else◌, map, All, if-cases,
}
use nirantara.Common.Text.{Bytes}
use nirantara.Enrollment.Certificate.{Backend}
use nirantara.Enrollment.Config.{Config, Host, load}
use nirantara.Enrollment.Config.Load.{IsLoaded, HasGate, load-IsLoaded}
use nirantara.Enrollment.Http.{Sent}
use nirantara.Enrollment.Http.Request.{Received, handle_client, respond, issued}
use nirantara.Enrollment.Http.Answer.{IsRefusal, Served, respond_sound}

-- A client, by what the calls of `recv` and of `send` come to.
pub record Client : Type 0 where
  pub received : List Received
  pub header_calls : List Sent
  pub body_calls : List Sent

-- What a call of `accept` comes to: a client, EINTR, or another error.
pub data Accepted : Type 0 where
  client : Client → Accepted
  accept_interrupted accept_failed : Accepted

-- What the calls for the listener come to: `socket`, `setsockopt`, `inet_pton`, `bind` and `listen`.
pub record Sockets : Type 0 where
  pub has_socket : Bool
  pub reuses_address : Bool
  pub is_address : Option Bytes → Bool
  pub binds : Option Bytes → ℕ → Bool
  pub listens : Bool

-- `bind_listener`; `true` stands for a descriptor.
unfoldable pub bind_listener : Sockets → Config → Bool
bind_listener s cfg =
    if not s.has_socket
    then false
    else if not s.reuses_address
    then false
    else if not (s.is_address cfg.listen_host)
    then false
    else if not (s.binds cfg.listen_host cfg.listen_port)
    then false
    else s.listens

-- What the service has sent, client by client, and its exit status, or `none` while it waits for the
-- next client.
abbrev pub Course : Type 0
Course = List Bytes × Option ℕ

abbrev pub then_sent : Bytes → Course → Course
then_sent bytes (sent, code) = (bytes ∷ sent, code)

module _ (b : Backend) (cfg : Config) where
  abbrev pub handled : Client → Bytes
  handled c = handle_client b cfg c.received c.header_calls c.body_calls

  -- The loop over `accept`.
  unfoldable pub accept_loop : List Accepted → Course
  accept_loop [] = ([], none)
  accept_loop (client c ∷ calls) = then_sent (handled c) (accept_loop calls)
  accept_loop (accept_interrupted ∷ calls) = accept_loop calls
  accept_loop (accept_failed ∷ calls) = ([], some 1)

  unfoldable pub enrollment_serve : Sockets → List Accepted → Course
  unfolding accept_loop bind_listener
  enrollment_serve s calls = if not (bind_listener s cfg) then ([], some 1) else accept_loop calls

module _ (host : Host) (b : Backend) (has_curl : Bool) (s : Sockets) where
  abbrev pub serve_loaded : Bool × Config → List Accepted → Course
  serve_loaded (false, cfg) calls = ([], some 1)
  serve_loaded (true, cfg) calls =
      if not has_curl then ([], some 1) else enrollment_serve b cfg s calls

  -- `main`
  unfoldable pub service_main : List Accepted → Course
  unfolding enrollment_serve
  service_main calls = serve_loaded (load host) calls
