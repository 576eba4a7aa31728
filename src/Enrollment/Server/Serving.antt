-- ===== src/Enrollment/Server/Serving.antt =====
-- The service from its start: what its clients are sent.
use nirantara.Common.{◌≡◌, true, false, ◌⊎◌, List, [], ◌∷◌}
use nirantara.Common.{concat, length}
use nirantara.Common.Number.Print.{print}
use nirantara.Common.Text.{Bytes, codes}
use nirantara.Enrollment.Http.{Response, send_response}
use nirantara.Enrollment.Certificate.{Backend}
use nirantara.Enrollment.Config.{Config, Host, load}
use nirantara.Enrollment.Config.Load.{IsLoaded, HasGate}
use nirantara.Enrollment.Http.Request.{issued}
use nirantara.Enrollment.Http.Answer.{IsRefusal, Served}
use nirantara.Enrollment.Server.{Client, Accepted, client, accept_interrupted, accept_failed}

-- The clients up to the first error of `accept`.
unfoldable pub clients : List Accepted → List Client
clients [] = []
clients (client c ∷ calls) = c ∷ clients calls
clients (accept_interrupted ∷ calls) = clients calls
clients (accept_failed ∷ calls) = []

-- The text of a response.
abbrev pub text_of : Response → Bytes
text_of r = concat (
    codes "HTTP/1.1 "
    ∷ print r.status
    ∷ codes " "
    ∷ r.reason
    ∷ codes "\r\nContent-Type: "
    ∷ r.content_type
    ∷ codes "\r\nContent-Length: "
    ∷ print (length r.body)
    ∷ codes "\r\nConnection: close\r\n\r\n"
    ∷ r.body
    ∷ [])

-- What a client is sent: its answer whole, unless a call of `send` for it fails.
pub record IsSent (b : Backend) (cfg : Config) (c : Client) (bytes : Bytes) : Type 0 where
  pub answer : Response
  pub founded :
      IsRefusal answer
      ⊎ ((cert_pem : Bytes) × (answer ≡ issued cert_pem) × Served b cfg c.received cert_pem)
  pub whole :
      (bytes ≡ text_of answer) ⊎ ((send_response c.header_calls c.body_calls answer).0 ≡ false)

-- One after the other.
abbrev pub AllSent : Backend → Config → List Client → List Bytes → Type 0
AllSent b cfg [] [] = Unit
AllSent b cfg [] (bytes ∷ sent) = ⊥
AllSent b cfg (c ∷ cs) [] = ⊥
AllSent b cfg (c ∷ cs) (bytes ∷ sent) = IsSent b cfg c bytes × AllSent b cfg cs sent

-- A service at work: its configuration is a loaded one, and its clients have their answers in turn.
pub record IsServing (host : Host) (b : Backend) (calls : List Accepted) (sent : List Bytes)
    : Type 0 where
  pub cfg : Config
  pub loaded : load host ≡ (true, cfg)
  pub well_formed : IsLoaded host cfg × HasGate host cfg
  pub in_turn : AllSent b cfg (clients calls) sent
