-- ===== src/Enrollment/Http/Answer.antt =====
-- `handle_client`: what stands behind each answer.
use nirantara.Common.{
  ℕ, ◌+◌, ◌-◌, ◌≤◌, ◌≡◌, refl, ap, sym, subst, ◌⊎◌, Bool, true, false, inl, inr, Option, none, some,
  List, [], ◌∷◌, ◌++◌, ◌∙◌, append_assoc, length-append, arith, length, drop, Option-cases, leb→le,
}
use nirantara.Common.Options.{some_eq}
use nirantara.Common.Text.{Bytes, codes, cstr, strstr, starts_with}
use nirantara.Common.Text.Search.{strstr_splits, strstr-append, strstr-append_some}
use nirantara.Enrollment.Certificate.{Backend}
use nirantara.Enrollment.Certificate.Issue.{Grounds, issue_sound}
use nirantara.Enrollment.Config.{Config}
use nirantara.Enrollment.Http.{Response, blank_line, copy_header_value, parse_content_length}
use nirantara.Enrollment.Http.Request.{
  Received, Step, stop, next, require, or_stop, ◌>>=◌, request_line_is_enroll_post, answer, respond,
  read_request, response_of, issued, length_before,
}

-- An answer that refuses.
abbrev pub IsRefusal : Response → Type 0
IsRefusal r = (r.status ≡ 400) ⊎ (r.status ≡ 403) ⊎ (r.status ≡ 404)

-- A step that only stops with responses of `P`.
record StopsIn {ℓ} {A : Type ℓ} (P : Response → Type 0) (m : Step A) : Type ℓ where
  holds : (r : Response) → m ≡ stop r → P r

stop_eq {ℓ} : {A : Type ℓ} (m : Step A) (r s : Response) → m ≡ stop r → m ≡ stop s → r ≡ s
stop_eq m r s g h = cc

module _ {ℓ κ} {A : Type ℓ} {B : Type κ} (P : Response → Type 0) where
  >>=-StopsIn :
      (m : Step A) (f : A → Step B)
      → StopsIn P m
      → ((a : A) → StopsIn P (f a))
      → StopsIn P (m >>= f)
  unfolding ◌>>=◌
  >>=-StopsIn (stop s) f h k = record { holds = λ r e. h.holds r (ap stop (stop_eq _ s r refl e)) }
  >>=-StopsIn (next a) f h k = record { holds = λ r e. (k a).holds r e }

module _ {ℓ κ} {A : Type ℓ} {B : Type κ} where
  >>=-eq-next :
      (m : Step A) (f : A → Step B) (y : B)
      → (m >>= f) ≡ next y
      → (a : A) × (m ≡ next a) × (f a ≡ next y)
  unfolding ◌>>=◌
  >>=-eq-next (stop r) f y h = cc
  >>=-eq-next (next a) f y h = (a, refl, h)

or_stop-eq-next {ℓ} :
    {A : Type ℓ} (o : Option A) (r : Response) (a : A) → or_stop o r ≡ next a → o ≡ some a
unfolding or_stop
or_stop-eq-next none r a h = cc
or_stop-eq-next (some x) r a h = cc

next_eq {ℓ} : {A : Type ℓ} (x y : A) → next x ≡ next y → x ≡ y
next_eq x y h = cc

require-eq-next : (t : Bool) (r : Response) → require t r ≡ next tt → t ≡ true
unfolding require
require-eq-next true r h = refl
require-eq-next false r h = cc

require-StopsIn : (P : Response → Type 0) (t : Bool) (r : Response) → P r → StopsIn P (require t r)
unfolding require
require-StopsIn P true r h = record { holds = λ s e. cc }
require-StopsIn P false r h = record { holds = λ s e. subst P (stop_eq _ r s refl e) h }

or_stop-StopsIn {ℓ} :
    {A : Type ℓ} (P : Response → Type 0) (o : Option A) (r : Response)
    → P r
    → StopsIn P (or_stop o r)
unfolding or_stop
or_stop-StopsIn P none r h = record { holds = λ s e. subst P (stop_eq _ r s refl e) h }
or_stop-StopsIn P (some a) r h = record { holds = λ s e. cc }

next-StopsIn {ℓ} : {A : Type ℓ} (P : Response → Type 0) (a : A) → StopsIn P (next a)
next-StopsIn P a = record { holds = λ s e. cc }

-- The headers are what stands before the first blank line, and the body is what stands behind it.
pub record IsSplit (text headers body : Bytes) : Type 0 where
  pub at_blank_line : text ≡ headers ++ (13 ∷ 10 ∷ 13 ∷ 10 ∷ body)
  pub first :
      (a b : Bytes) → text ≡ a ++ ((13 ∷ 10 ∷ 13 ∷ 10 ∷ []) ++ b) → length headers ≤ length a

starts_with_eq : (s p : Bytes) → starts_with s p ≡ true → s ≡ p ++ drop (length p) s
unfolding starts_with
starts_with_eq s [] h = refl
starts_with_eq [] (d ∷ p) h = cc
starts_with_eq (c ∷ s) (d ∷ p) h =
    let (same, more) : (c ≡ d) × (starts_with s p ≡ true) = ground arith in
    ap (λ x. x ∷ s) same ∙ ap (λ t. d ∷ t) (starts_with_eq s p more)

drop-append : (a b : Bytes) → drop (length a) (a ++ b) ≡ b
drop-append [] b = refl
drop-append (x ∷ a) b = drop-append a b

length_before-some :
    (o : Option (Bytes × Bytes)) (len : ℕ)
    → length_before o ≡ some len
    → (front : Bytes) × (rest : Bytes) × (o ≡ some (front, rest)) × (length front ≡ len)
length_before-some none len h = cc
length_before-some (some (front, rest)) len h = (front, rest, refl, some_eq _ _ h)

found-IsSplit :
    (text front rest : Bytes)
    → strstr text blank_line ≡ some (front, rest)
    → IsSplit text front (drop (length front + 4) text)
found-IsSplit text front rest h =
    let (splits, starts) = strstr_splits text blank_line front rest h in
    let begins = starts_with_eq rest blank_line starts in
    let body = drop 4 rest in
    let whole : text ≡ front ++ (blank_line ++ body) = splits ∙ ap (λ t. front ++ t) begins in
    let behind : drop (length front + 4) text ≡ body =
      ap (drop (length front + 4)) (whole ∙ sym (append_assoc front blank_line body))
      ∙ ap (λ n. drop n ((front ++ blank_line) ++ body))
          (omega (arith, length-append front blank_line))
      ∙ drop-append (front ++ blank_line) body in
    record {
      at_blank_line = whole ∙ ap (λ t. front ++ (blank_line ++ t)) (sym behind);
      first = λ a b e.
          let (f, r, found, early) = strstr-append_some a blank_line in
          let there = strstr-append (a ++ blank_line) blank_line b f r found in
          let same =
            some_eq _ _ (
              sym there
              ∙ ap (λ t. strstr t blank_line) (append_assoc a blank_line b ∙ sym e)
              ∙ h) in
          omega (arith, ap (λ (r : Bytes × Bytes). length r.0) same, early);
    }

-- What a request held that was answered with a certificate.
pub record Served (b : Backend) (cfg : Config) (calls : List Received) (cert_pem : Bytes)
    : Type 0 where
  pub request : Bytes
  pub headers : Bytes
  pub body : Bytes
  pub content_len : ℕ
  pub device_id : Bytes
  pub read : read_request b.has_memory calls ≡ some request
  pub split : IsSplit (cstr request) headers body
  pub post : request_line_is_enroll_post (cstr request) ≡ true
  pub measured :
      parse_content_length b.has_memory (cstr request) (length headers) ≡ some content_len
  pub named :
      copy_header_value b.has_memory (cstr request) (length headers) (codes "X-Device-Id")
      ≡ some device_id
  pub entire : content_len ≤ length request - (length headers + 4)
  pub grounds : Grounds b cfg device_id body cert_pem

module _ (b : Backend) (cfg : Config) where
  answer-StopsIn : (request : Bytes) (n : ℕ) → StopsIn IsRefusal (answer b cfg request n)
  unfolding answer
  answer-StopsIn request n =
      >>=-StopsIn IsRefusal _ _ (require-StopsIn IsRefusal _ _ (inr (inr refl))) (λ _.
        >>=-StopsIn IsRefusal _ _ (or_stop-StopsIn IsRefusal _ _ (inl refl)) (λ len.
          >>=-StopsIn IsRefusal _ _ (or_stop-StopsIn IsRefusal _ _ (inl refl)) (λ content_len.
            >>=-StopsIn IsRefusal _ _ (or_stop-StopsIn IsRefusal _ _ (inl refl)) (λ device_id.
              >>=-StopsIn IsRefusal _ _ (require-StopsIn IsRefusal _ _ (inl refl)) (λ _.
                >>=-StopsIn IsRefusal _ _ (require-StopsIn IsRefusal _ _ (inl refl)) (λ _.
                  >>=-StopsIn IsRefusal _ _ (or_stop-StopsIn IsRefusal _ _ (inr (inl refl)))
                    (λ _. next-StopsIn IsRefusal _)))))))

  answer-Served :
      (calls : List Received) (request : Bytes) (r : Response)
      → read_request b.has_memory calls ≡ some request
      → answer b cfg (cstr request) (length request) ≡ next r
      → (cert_pem : Bytes) × (r ≡ issued cert_pem) × Served b cfg calls cert_pem
  unfolding answer
  answer-Served calls request r received h =
      let (u, post, h1) = >>=-eq-next _ _ r h in
      let (len, found, h2) = >>=-eq-next _ _ r h1 in
      let (content_len, parsed, h3) = >>=-eq-next _ _ r h2 in
      let (device_id, named, h4) = >>=-eq-next _ _ r h3 in
      let (v, short, h5) = >>=-eq-next _ _ r h4 in
      let (w, entire, h6) = >>=-eq-next _ _ r h5 in
      let (cert_pem, made, h7) = >>=-eq-next _ _ r h6 in
      let room = require-eq-next _ _ entire in
      let (headers, rest, is_found, is_len) =
        length_before-some (strstr (cstr request) blank_line) len (or_stop-eq-next _ _ _ found) in
      let split = found-IsSplit (cstr request) headers rest is_found in
      (
        cert_pem,
        sym (next_eq _ _ h7),
        record {
          request = request;
          headers = headers;
          body = drop (length headers + 4) (cstr request);
          split = split;
          content_len = content_len;
          device_id = device_id;
          read = received;
          post = require-eq-next _ _ post;
          measured = rw is_len (or_stop-eq-next _ _ _ parsed);
          named = rw is_len (or_stop-eq-next _ _ _ named);
          entire = rw is_len (leb→le _ _ room);
          grounds =
              issue_sound b cfg device_id (drop (length headers + 4) (cstr request)) cert_pem
                (rw is_len (or_stop-eq-next _ _ _ made));
        },
      )

  answer_cases :
      (calls : List Received) (request : Bytes) (a : Step Response)
      → read_request b.has_memory calls ≡ some request
      → answer b cfg (cstr request) (length request) ≡ a
      → StopsIn IsRefusal a
      → IsRefusal (response_of a)
        ⊎ ((cert_pem : Bytes) × (response_of a ≡ issued cert_pem) × Served b cfg calls cert_pem)
  answer_cases calls request (stop r) received h refusal = inl (refusal.holds r refl)
  answer_cases calls request (next r) received h refusal =
      inr (answer-Served calls request r received h)

  -- Every response is a refusal with the status 400, 403 or 404, or it is 200 with a certificate as
  -- its body, for a request that was read whole, asks for POST /enroll names the device in its
  -- headers, which end at its first blank line, and on the grounds of issuing, for that device and
  -- the certificate request that is its body, what stands behind that blank line.
  pub respond_sound :
      (calls : List Received)
      → IsRefusal (respond b cfg calls)
        ⊎ ((cert_pem : Bytes) × (respond b cfg calls ≡ issued cert_pem)
            × Served b cfg calls cert_pem)
  unfolding respond
  respond_sound calls = elim (Option-cases (read_request b.has_memory calls)) [
    | inl e ↦ rw (respond, e) (inl (inl refl))
    | inr (request, e) ↦
        rw (respond, e)
          (answer_cases calls request _ e refl (answer-StopsIn (cstr request) (length request)))
  ]
