-- ===== src/Enrollment/Kms/Signing.antt =====
-- The authorization of kms.c is that of the signing process, and what is signed is what is sent.
use nirantara.Common.{
  Bool, List, [], ◌∷◌, ◌++◌, sym, ◌∙◌, append-nil, append_assoc, ◌≡◌, refl, true, inl, inr, Option,
  none, some, All,
}
use nirantara.Common.Text.{Bytes, codes, starts_with}
use nirantara.Enrollment.Config.{Config}
use nirantara.Enrollment.Kms.{Crypto}
use nirantara.Enrollment.Kms.Sign.{
  Post, Service, host_of, url_of, header_lines, append_all, kms_post,
}
use nirantara.Enrollment.Kms.Moment.{IsMoment, utc_timestamps-IsMoment}
use nirantara.Enrollment.Kms.Posting.{kms_post-Made}
use nirantara.Enrollment.Kms.SigV4.{
  Credentials, for_kms, sign_request, headers_of, post_request, precedes, ascending, value_in,
  Reaches,
}
use nirantara.Enrollment.Kms.Texts.{build_authorization_eq}

-- What the process asks of a request: the headers that are signed stand in their order, the
-- authorization is that of the process, and each of these headers is sent with the value that was
-- signed; and the scope names the day of the time.
pub record IsSigned (c : Crypto) (cfg : Config) (post : Post) : Type 0 where
  pub who : Credentials
  pub date : Bytes
  pub amz_date : Bytes
  pub host : Bytes
  pub auth : Bytes
  pub of_moment : IsMoment date amz_date
  pub of_account : cfg.aws_access_key_id ≡ some who.access_key_id
  pub with_secret : cfg.aws_secret_access_key ≡ some who.secret_key
  pub of_service : who.service ≡ codes "kms"
  pub in_region : cfg.aws_region ≡ some who.region
  pub in_order : ascending (headers_of cfg.aws_session_token host amz_date) ≡ true
  pub authorized :
      sign_request c who date amz_date (post_request cfg.aws_session_token host amz_date post.body)
      ≡ some auth
  pub auth_sent : value_in (codes "authorization") post.headers ≡ some auth
  pub all_sent : All (Reaches post) (headers_of cfg.aws_session_token host amz_date)

-- Where every call succeeds, the list has all lines.
pub append_all-all :
    (appends : Bytes → Bool) (held lines : List Bytes)
    → ((line : Bytes) → appends line ≡ true)
    → append_all appends held lines ≡ held ++ lines
unfolding append_all
append_all-all appends held [] all = sym (append-nil held)
append_all-all appends held (line ∷ lines) all =
    rw (all line)
      (append_all-all appends (held ++ line ∷ []) lines all ∙ append_assoc held (line ∷ []) lines)

reached :
    (post : Post) (token : Option Bytes) (region amz_date auth : Bytes)
    → post.url ≡ url_of (host_of region)
    → post.headers ≡ header_lines amz_date auth token
    → (value_in (codes "authorization") post.headers ≡ some auth)
      × All (Reaches post) (headers_of token (host_of region) amz_date)
unfolding value_in starts_with
reached post none region amz_date auth to lines =
    rw lines (refl, (inr refl, (inl (refl, to), (inr refl, (inr refl, tt)))))
reached post (some token) region amz_date auth to lines =
    rw lines (refl, (inr refl, (inl (refl, to), (inr refl, (inr refl, (inr refl, tt))))))

in_order_eq :
    (token : Option Bytes) (host amz_date : Bytes)
    → ascending (headers_of token host amz_date) ≡ true
unfolding ascending precedes
in_order_eq none host amz_date = refl
in_order_eq (some token) host amz_date = refl

-- While `curl_slist_append` succeeds, every request to KMS is signed as the signing process, version 4, of AWS asks, with the credentials
-- and the region of the configuration: the authorization is the one that the process computes for a
-- list of headers in its order and for the body that is posted, each header of this list is sent with
-- the value that was signed, the session token where there is one, and the day of the scope is that of
-- the time.
pub kms_post-IsSigned :
    (c : Crypto) (service : Service) (cfg : Config) (digest : Bytes) (post : Post)
    → ((line : Bytes) → service.appends line ≡ true)
    → kms_post c service cfg digest ≡ some post
    → IsSigned c cfg post
kms_post-IsSigned c service cfg digest post appends h =
    let made = kms_post-Made c service cfg digest post h in
    let host = host_of made.region in
    let token = cfg.aws_session_token in
    let (region, secret_key, access_key_id, e1, e2, e3, authorized) =
      build_authorization_eq c cfg host post.body made.date made.amz_date made.auth
        made.authorized in
    let (auth_sent, all_sent) =
      reached post token made.region made.amz_date made.auth made.sent_to
        (made.sent_with ∙ append_all-all service.appends [] _ appends) in
    record {
      who = for_kms access_key_id secret_key region;
      date = made.date;
      amz_date = made.amz_date;
      host = host;
      auth = made.auth;
      of_moment = utc_timestamps-IsMoment service.clock made.date made.amz_date made.at_time;
      of_account = e3;
      with_secret = e2;
      of_service = refl;
      in_region = e1;
      in_order = in_order_eq token host made.amz_date;
      authorized = authorized;
      auth_sent = auth_sent;
      all_sent = all_sent;
    }
