-- ===== src/Net/Enroll/Parsed.antt =====
-- What the server finds in the request that the client writes.
use nirantara.Common.{
  ℕ, ◌+◌, ◌≤◌, ◌≡◌, ◌≢◌, ◌∙◌, ap, sym, subst, Bool, true, some, [], ◌∷◌, ◌++◌, length,
  length-append, append-nil, All, arith,
}
use nirantara.Common.Number.Print.{print, strtoul-print}
use nirantara.Common.Text.{Bytes, codes, equal, strstr}
use nirantara.Common.Text.Search.{strstr_splits}
use nirantara.Enrollment.Certificate.{is_id_char}
use nirantara.Enrollment.Http.{
  crlf, blank_line, request_max_bytes, copy_header_value, parse_content_length, content_length_of,
  number_of, copied,
}
use nirantara.Enrollment.Http.Inspection.{IsRequest, request}
use nirantara.Net.Enroll.{request_text}
use nirantara.Net.Enroll.Headers.{IsLineChar, HasNoNul, HasNoNul-append, HasNoNul-print}
use nirantara.Net.Enroll.Lines.{IsInk}
use nirantara.Net.Enroll.Request.{
  written, from_type, from_size, from_close, all_left, written-append, length-written,
  search_device, search_size,
}

pub IsLineChar-id :
    (id : Bytes) → All (λ c. is_id_char c ≡ true) id → All IsLineChar id × All IsInk id
IsLineChar-id [] h = (tt, tt)
IsLineChar-id (c ∷ id) h =
    let (a, b) = IsLineChar-id id h.1 in let (na, nb, nc) = char c h.0 in (((na, nb), a), (nc, b))
  where
    char : (c : ℕ) → is_id_char c ≡ true → (c ≢ 0) × (c ≢ 13) × IsInk c
    char c h = (ground arith, ground arith, ground arith)

HasNoNul-line : (s : Bytes) → All IsLineChar s → HasNoNul s
HasNoNul-line [] h = tt
HasNoNul-line (c ∷ s) h = (h.0.0, HasNoNul-line s h.1)

pub text-written :
    (server_ip device_id csr_pem : Bytes)
    → request_text server_ip device_id csr_pem
      ≡ written server_ip device_id (length csr_pem) (blank_line ++ csr_pem)
unfolding request_text
text-written server_ip device_id csr_pem =
    ap (λ t. written server_ip device_id (length csr_pem) (blank_line ++ t)) (append-nil csr_pem)

module _ (server_ip device_id : Bytes) (n : ℕ) (plain_ip : All IsLineChar server_ip)
    (plain_id : All IsLineChar device_id) where
  abbrev pub w : Bytes → Bytes
  w = written server_ip device_id n

  abbrev pub left : ℕ
  left = all_left server_ip device_id n

  pub w-HasNoNul : (t : Bytes) → HasNoNul t → HasNoNul (w t)
  w-HasNoNul t h =
      let sizes =
        HasNoNul-append (print n) (crlf ++ from_close server_ip device_id n t) (HasNoNul-print n)
          (HasNoNul-append (crlf ++ codes "Connection: close") t (omega arith) h) in
      let sizes' =
        HasNoNul-append (crlf ++ codes "Content-Length: ")
          (print n ++ (crlf ++ from_close server_ip device_id n t)) (omega arith) sizes in
      let devices =
        HasNoNul-append device_id (crlf ++ from_size server_ip device_id n t)
          (HasNoNul-line device_id plain_id) sizes' in
      let devices' =
        HasNoNul-append
          (crlf ++ codes "Content-Type: application/x-pem-file" ++ crlf ++ codes "X-Device-Id: ")
          (device_id ++ (crlf ++ from_size server_ip device_id n t)) (omega arith) devices in
      let hosts =
        HasNoNul-append server_ip (crlf ++ from_type server_ip device_id n t)
          (HasNoNul-line server_ip plain_ip) devices' in
      HasNoNul-append (codes "POST /enroll HTTP/1.1" ++ crlf ++ codes "Host: ")
        (server_ip ++ (crlf ++ from_type server_ip device_id n t)) (omega arith) hosts

  pub length-w : (t : Bytes) → length (w t) ≡ left + length t
  length-w t =
      ap length (sym (written-append server_ip device_id n [] t))
      ∙ length-append (w []) t
      ∙ ap (λ k. k + length t) (length-written server_ip device_id n)

  pub length_front :
      (t f : Bytes)
      → strstr (w (blank_line ++ t)) blank_line ≡ some (f, blank_line ++ t)
      → length f ≡ left
  length_front t f e =
      let (splits, _) = strstr_splits (w (blank_line ++ t)) blank_line f (blank_line ++ t) e in
      omega (arith, ap length splits, length-append f (blank_line ++ t), length-w (blank_line ++ t))

  module _ (has_memory : ℕ → Bool) (memory : (k : ℕ) → has_memory k ≡ true) where
    pub device_named :
        (t : Bytes)
        → All IsInk device_id
        → copy_header_value has_memory (w t) left (codes "X-Device-Id") ≡ some device_id
    unfolding copy_header_value
    device_named t ink =
        ap (copied has_memory) (search_device server_ip device_id n plain_ip plain_id t ink)
        ∙ rw memory

    pub length_parsed :
        (t : Bytes) → n ≤ request_max_bytes → parse_content_length has_memory (w t) left ≡ some n
    unfolding parse_content_length copy_header_value content_length_of equal
    length_parsed t h =
        ap (λ v. number_of has_memory (copied has_memory v))
          (search_size server_ip device_id n plain_ip plain_id t)
        ∙ rw memory (rw (strtoul-print n (omega arith)) (ground arith))

    -- The bytes of a client's request are a request for the server's reader.
    pub written-IsRequest :
        (csr_pem f : Bytes)
        → length csr_pem ≡ n
        → strstr (w blank_line) blank_line ≡ some (f, blank_line)
        → length (w (blank_line ++ csr_pem)) ≤ request_max_bytes
        → IsRequest has_memory f csr_pem
          × (request has_memory f csr_pem ≡ w (blank_line ++ csr_pem))
    written-IsRequest csr_pem f is_n e fits =
        let (splits, _) = strstr_splits (w blank_line) blank_line f blank_line e in
        let whole : request has_memory f csr_pem ≡ w (blank_line ++ csr_pem) =
          ap (λ s. s ++ csr_pem) (sym splits)
          ∙ written-append server_ip device_id n blank_line csr_pem in
        let total = length-w (blank_line ++ csr_pem) in
        (
          record {
            no_nul = subst HasNoNul splits (w-HasNoNul blank_line (omega arith));
            first = subst (λ s. strstr s blank_line ≡ some (f, blank_line)) splits e;
            declared =
                ap (λ s. parse_content_length has_memory s (length f)) (sym splits)
                ∙ ap (parse_content_length has_memory (w blank_line)) (length_front [] f e)
                ∙ length_parsed blank_line (omega (arith, is_n))
                ∙ ap some (sym is_n);
            fits = subst (λ s. length s ≤ request_max_bytes) (sym whole) fits;
          },
          whole,
        )
