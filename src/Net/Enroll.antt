-- ===== src/Net/Enroll.antt =====
-- lib/nirantara-net/src/enroll.c: `nr__enroll_request`, the client's side of an enrollment.
pub mod Headers
pub mod Reply
pub mod Lines
pub mod Request
pub mod Parsed
pub mod Served
use nirantara.Common.{
  ℕ, ◌+◌, ◌-◌, Bool, true, false, not, ◌&&◌, ◌||◌, Option, none, some, List, [], ◌∷◌, ◌++◌, ltb,
  leb, ◌==◌, if◌then◌else◌, length, take, drop, concat,
}
use nirantara.Common.Number.Print.{print}
use nirantara.Common.Text.{Bytes, codes, cstr, equal, starts_with, strstr}

-- ENROLL_BUF_SIZE
abbrev pub enroll_buf_size : ℕ
enroll_buf_size = 16384

-- The codes of `nr_error_t` but NR_OK.
pub data Error : Type 0 where
  err_param err_mem err_tls err_mqtt err_enroll err_keystore err_io err_proto : Error

-- `accepted` is NR_OK with what was copied to `cert_out`.
pub data Outcome : Type 0 where
  accepted : Bytes → Outcome
  failed : Error → Outcome

abbrev pub line_end : Bytes
line_end = 13 ∷ 10 ∷ []

-- What `snprintf` writes.
unfoldable pub request_text : Bytes → Bytes → Bytes → Bytes
request_text server_ip device_id csr_pem = concat (
    codes "POST /enroll HTTP/1.1"
    ∷ line_end
    ∷ codes "Host: "
    ∷ server_ip
    ∷ line_end
    ∷ codes "Content-Type: application/x-pem-file"
    ∷ line_end
    ∷ codes "X-Device-Id: "
    ∷ device_id
    ∷ line_end
    ∷ codes "Content-Length: "
    ∷ print (length csr_pem)
    ∷ line_end
    ∷ codes "Connection: close"
    ∷ line_end
    ∷ line_end
    ∷ csr_pem
    ∷ [])

-- The loop over `SSL_read`, on what the calls bring: no bytes stand for a result that is not
-- positive.
unfoldable pub read_all : List Bytes → Bytes → Bytes
read_all [] buf = buf
read_all (bytes ∷ reads) buf =
    let buf' = buf ++ take (enroll_buf_size - length buf - 1) bytes in
    let rest = read_all reads buf' in
    if equal bytes [] then buf else if leb (enroll_buf_size - 1) (length buf') then buf' else rest

abbrev pub is_some : Option (Bytes × Bytes) → Bool
is_some none = false
is_some (some _) = true

abbrev pub begin_certificate : Bytes
begin_certificate = codes "-----BEGIN CERTIFICATE-----"

abbrev pub accept_body : ℕ → Bytes → Outcome
accept_body cert_out_len body =
    if not (is_some (strstr body begin_certificate))
    then failed err_proto
    else if leb cert_out_len (length body)
    then failed err_mem
    else accepted body

abbrev pub body_of : ℕ → Option (Bytes × Bytes) → Outcome
body_of cert_out_len none = failed err_proto
body_of cert_out_len (some (_, rest)) = accept_body cert_out_len (drop 4 rest)

-- The checks of the reply, which is the string `buf`.
unfoldable pub check_reply : ℕ → Bytes → Outcome
unfolding starts_with
check_reply cert_out_len buf =
    if not (starts_with buf (codes "HTTP/1.1 200")) && not (starts_with buf (codes "HTTP/1.0 200"))
    then failed err_proto
    else body_of cert_out_len (strstr buf (line_end ++ line_end))

-- The connection, as the calls of the system and of OpenSSL report it: whether `malloc` and `socket`
-- succeed, which texts `inet_pton` takes as an address and to which of these and which port `connect`
-- succeeds, whether `SSL_new` and `SSL_connect` do, whether `SSL_write` takes all of the request, and
-- what the calls of `SSL_read` bring.
pub record Connection : Type 0 where
  pub has_memory : Bool
  pub has_socket : Bool
  pub is_address : Bytes → Bool
  pub connects : Bytes → ℕ → Bool
  pub has_ssl : Bool
  pub shakes_hands : Bool
  pub writes : Bytes → Bool
  pub reads : List Bytes

-- Whether there is a connected socket in the end.
abbrev pub tcp_connect : Connection → Bytes → ℕ → Bool
tcp_connect c ip port =
    if not c.has_socket then false else if not (c.is_address ip) then false else c.connects ip port

-- `nr__enroll_request`
unfoldable pub enroll_request : Connection → Bytes → ℕ → Bytes → Bytes → ℕ → Outcome
unfolding cstr
enroll_request c server_ip port csr_pem device_id cert_out_len =
    let text = request_text server_ip device_id csr_pem in
    if not c.has_memory
    then failed err_mem
    else if not (tcp_connect c server_ip port)
    then failed err_io
    else if not c.has_ssl || not c.shakes_hands
    then failed err_enroll
    else if leb enroll_buf_size (length text)
    then failed err_mem
    else if not (c.writes text)
    then failed err_io
    else check_reply cert_out_len (cstr (read_all c.reads []))
