-- ===== src/Enrollment/Http/Sending.antt =====
-- `send_all` and `send_response`: what reaches the peer.
use nirantara.Common.{
  ◌≤◌, ◌<◌, ◌≡◌, refl, ◌∙◌, ap, sym, true, false, inl, inr, List, [], ◌∷◌, ◌++◌, ltb, ◌==◌, length,
  take, drop, take-append-drop, append_assoc, append-nil, Bool-cases, arith,
}
use nirantara.Common.{Bool}
use mathlib.Core.Bool.{false≢true}
use native.Mathlib.Decide.{dec_lt}
use nirantara.Common.Text.{Bytes}
use nirantara.Enrollment.Http.{
  Sent, send_all, send_response, response_headers, Response, took, send_failed, send_interrupted,
}

-- Whatever the calls of `send` come to, what was sent is a prefix of the buffer, and the result is 0
-- exactly when nothing is left of it.
send_all_splits :
    (calls : List Sent) (buf : Bytes)
    → (rest : Bytes) × (buf ≡ (send_all calls buf).1 ++ rest)
      × ((send_all calls buf).0 ≡ true → rest ≡ [])
      × ((send_all calls buf).0 ≡ false → 0 < length rest)
unfolding send_all
send_all_splits calls [] = ([], ground arith, (λ h. refl), (λ h. ground arith))
send_all_splits [] (c ∷ buf) = (c ∷ buf, refl, (λ h. cc), (λ h. omega arith))
send_all_splits (send_interrupted ∷ calls) (c ∷ buf) = send_all_splits calls (c ∷ buf)
send_all_splits (send_failed ∷ calls) (c ∷ buf) = (c ∷ buf, refl, (λ h. cc), (λ h. omega arith))
send_all_splits (took n ∷ calls) (c ∷ buf) = elim (Bool-cases (n == 0)) [
  | inl e ↦ rw e (c ∷ buf, refl, (λ h. cc), (λ h. omega arith))
  | inr e ↦
      let (rest, splits, whole, part) = send_all_splits calls (drop n (c ∷ buf)) in
      rw e (
        rest,
        sym (take-append-drop n (c ∷ buf))
            ∙ ap (λ s. take n (c ∷ buf) ++ s) splits
            ∙ sym (append_assoc (take n (c ∷ buf)) _ rest),
        whole,
        part,
      )
]

-- A response whose headers fit their array is sent as a prefix of the headers and the body, and
-- whole when the result is 0; one whose headers do not fit is not sent at all.
pub send_response_splits :
    (header_calls body_calls : List Sent) (r : Response)
    → (length (response_headers r) < 512
        → (rest : Bytes) × (response_headers r ++ r.body
            ≡ (send_response header_calls body_calls r).1 ++ rest)
          × ((send_response header_calls body_calls r).0 ≡ true → rest ≡ []))
      × (512 ≤ length (response_headers r) → send_response header_calls body_calls r ≡ (false, []))
unfolding send_response
send_response_splits hs bs r = (
  (λ fits.
      let (rest, splits, whole, _) = send_all_splits hs (response_headers r) in
      let (rest', splits', whole', _) = send_all_splits bs r.body in
      let room : ltb (length (response_headers r)) 512 ≡ true = ground arith in
      elim (Bool-cases (send_all hs (response_headers r)).0) [
        | inl e ↦
            rw (room, e)
              (
                rest',
                (let sent : response_headers r ≡ (send_all hs (response_headers r)).1 =
                      splits
                      ∙ ap (λ s. (send_all hs (response_headers r)).1 ++ s) (whole e)
                      ∙ append-nil _ in
                    ap (λ s. s ++ r.body) sent
                    ∙ ap (λ s. (send_all hs (response_headers r)).1 ++ s) splits'
                    ∙ sym (append_assoc _ _ rest')),
                whole',
              )
        | inr e ↦
            rw (room, e)
              (rest ++ r.body, ap (λ s. s ++ r.body) splits ∙ append_assoc _ rest r.body, (λ h. cc))
      ]),
  (λ long. ground arith),
)

-- What the server sends when it sends all of a response.
pub sent_whole :
    (header_calls body_calls : List Sent) (r : Response)
    → (send_response header_calls body_calls r).0 ≡ true
    → (send_response header_calls body_calls r).1 ≡ response_headers r ++ r.body
sent_whole hs bs r fine =
    let (fits, refused) = send_response_splits hs bs r in
    elim (dec_lt (length (response_headers r)) 512) [
      | yes small ↦
          let (rest, splits, whole) = fits small in
          sym (append-nil _)
          ∙ ap (λ t. (send_response hs bs r).1 ++ t) (sym (whole fine))
          ∙ sym splits
      | no big ↦
          absurd (false≢true (sym (ap (λ (r : Bool × Bytes). r.0) (refused (omega arith))) ∙ fine))
    ]
