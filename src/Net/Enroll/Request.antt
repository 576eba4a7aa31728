-- ===== src/Net/Enroll/Request.antt =====
-- The server understands the request that the client writes.
use nirantara.Common.{
  ℕ, suc, ◌+◌, ◌≡◌, refl, ◌∙◌, ap, some, [], ◌++◌, length, length-append, append_assoc, All,
  All-append, arith,
}
use nirantara.Common.Number.Print.{print}
use nirantara.Common.Text.{Bytes, codes, equal_nocase, starts_with, strstr}
use nirantara.Enrollment.Http.{crlf, blank_line, header_name_matches, value_of}
use nirantara.Net.Enroll.Headers.{IsLineChar, print-IsLineChar, strstr_past, strstr_past_line}
use nirantara.Net.Enroll.Lines.{
  search_header, skip_line, take_line, and_false, IsInk, value-ink, print-IsInk,
}

-- The headers that the client writes, with what stands behind them.
module _ (server_ip device_id : Bytes) (n : ℕ) where
  abbrev pub host : Bytes
  host = codes "Host: " ++ server_ip

  abbrev pub device : Bytes
  device = codes "X-Device-Id: " ++ device_id

  abbrev pub size : Bytes
  size = codes "Content-Length: " ++ print n

  abbrev pub from_close : Bytes → Bytes
  from_close t = codes "Connection: close" ++ t

  abbrev pub from_size : Bytes → Bytes
  from_size t = size ++ (crlf ++ from_close t)

  abbrev pub from_device : Bytes → Bytes
  from_device t = device ++ (crlf ++ from_size t)

  abbrev pub from_type : Bytes → Bytes
  from_type t = codes "Content-Type: application/x-pem-file" ++ (crlf ++ from_device t)

  abbrev pub from_host : Bytes → Bytes
  from_host t = host ++ (crlf ++ from_type t)

  abbrev pub written : Bytes → Bytes
  written t = codes "POST /enroll HTTP/1.1" ++ (crlf ++ from_host t)

  pub written-append : (t u : Bytes) → written t ++ u ≡ written (t ++ u)
  written-append t u = simp append_assoc

  -- How many bytes stand between a line and the end of the headers.
  abbrev pub size_left : ℕ
  size_left = length size + suc (1 + 17)

  abbrev pub device_left : ℕ
  device_left = length device + suc (1 + size_left)

  abbrev pub all_left : ℕ
  all_left = 21 + 2 + (length host + 2 + (36 + 2 + device_left))

  pub length-written : length (written []) ≡ all_left
  length-written = omega (
    arith,
    length-append server_ip (crlf ++ from_type []),
    length-append device_id (crlf ++ from_size []),
    length-append (print n) (crlf ++ from_close []),
  )

  module _ (plain_ip : All IsLineChar server_ip) (plain_id : All IsLineChar device_id) where
    pub search_device :
        (t : Bytes)
        → All IsInk device_id
        → search_header (written t) all_left (codes "X-Device-Id") ≡ some device_id
    unfolding header_name_matches equal_nocase value_of
    search_device t ink =
        skip_line (codes "POST /enroll HTTP/1.1") (from_host t) (codes "X-Device-Id") _
          (omega arith) refl
        ∙ skip_line host (from_type t) (codes "X-Device-Id") _
            (All-append IsLineChar (codes "Host: ") server_ip (omega arith) plain_ip) (and_false _)
        ∙ skip_line (codes "Content-Type: application/x-pem-file") (from_device t)
            (codes "X-Device-Id") device_left (omega arith) refl
        ∙ take_line device (from_size t) (codes "X-Device-Id") (1 + size_left)
            (All-append IsLineChar (codes "X-Device-Id: ") device_id (omega arith) plain_id) refl
        ∙ ap some (value-ink device_id ink)

    pub search_size :
        (t : Bytes) → search_header (written t) all_left (codes "Content-Length") ≡ some (print n)
    unfolding header_name_matches equal_nocase value_of
    search_size t =
        skip_line (codes "POST /enroll HTTP/1.1") (from_host t) (codes "Content-Length") _
          (omega arith) refl
        ∙ skip_line host (from_type t) (codes "Content-Length") _
            (All-append IsLineChar (codes "Host: ") server_ip (omega arith) plain_ip) (and_false _)
        ∙ skip_line (codes "Content-Type: application/x-pem-file") (from_device t)
            (codes "Content-Length") device_left (omega arith) refl
        ∙ ap (λ k. search_header (from_device t) k (codes "Content-Length")) (omega arith)
        ∙ skip_line device (from_size t) (codes "Content-Length") size_left
            (All-append IsLineChar (codes "X-Device-Id: ") device_id (omega arith) plain_id)
            (and_false _)
        ∙ take_line size (from_close t) (codes "Content-Length") (1 + 17)
            (All-append IsLineChar (codes "Content-Length: ") (print n) (omega arith)
              (print-IsLineChar n))
            refl
        ∙ ap some (value-ink (print n) (print-IsInk n))

    -- The first blank line is the one behind the headers.
    pub strstr-written :
        (t : Bytes)
        → (f : Bytes) × (strstr (written (blank_line ++ t)) blank_line ≡ some (f, blank_line ++ t))
    strstr-written t =
        let close =
          strstr_past (codes "Connection: close") (blank_line ++ t) [] (blank_line ++ t)
            (omega arith) (strstr-blank t) in
        let behind = strstr_past_line b'C' _ _ (blank_line ++ t) (omega arith) close in
        let sizes =
          strstr_past size _ _ (blank_line ++ t)
            (All-append IsLineChar (codes "Content-Length: ") (print n) (omega arith)
              (print-IsLineChar n))
            behind in
        let behind' = strstr_past_line b'C' _ _ (blank_line ++ t) (omega arith) sizes in
        let devices =
          strstr_past device _ _ (blank_line ++ t)
            (All-append IsLineChar (codes "X-Device-Id: ") device_id (omega arith) plain_id)
            behind' in
        let behind'' = strstr_past_line b'X' _ _ (blank_line ++ t) (omega arith) devices in
        let types =
          strstr_past (codes "Content-Type: application/x-pem-file") _ _ (blank_line ++ t)
            (omega arith) behind'' in
        let behind''' = strstr_past_line b'C' _ _ (blank_line ++ t) (omega arith) types in
        let hosts =
          strstr_past host _ _ (blank_line ++ t)
            (All-append IsLineChar (codes "Host: ") server_ip (omega arith) plain_ip) behind''' in
        let last = strstr_past_line b'H' _ _ (blank_line ++ t) (omega arith) hosts in
        (_, strstr_past (codes "POST /enroll HTTP/1.1") _ _ (blank_line ++ t) (omega arith) last)
      where
        strstr-blank :
            (t : Bytes) → strstr (blank_line ++ t) blank_line ≡ some ([], blank_line ++ t)
        strstr-blank t = unfold strstr starts_with in refl
