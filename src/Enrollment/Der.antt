-- ===== src/Enrollment/Der.antt =====
-- The DER writing of enrollment/src/enrollment.c: `der_len_size`, `write_der_len` and the assembly
-- of a certificate from its three parts.
pub mod Length
pub mod Assembly
use Prim.Native.Nat.{bit_or}
use nirantara.Common.{
  ℕ, zero, suc, ◌+◌, ◌-◌, ◌*◌, ◌/◌, ◌%◌, ◌^◌, Option, none, some, List, [], ◌∷◌, ◌++◌, ltb, ◌==◌,
  if◌then◌else◌, length,
}
use nirantara.Common.Text.{Bytes}

-- `while (tmp > 0) { bytes++; tmp >>= 8; }` from `bytes`, on the rounds that are left.
unfoldable pub count_bytes : ℕ → ℕ → ℕ → ℕ
count_bytes zero tmp bytes = bytes
count_bytes (suc rounds) tmp bytes =
    let more = count_bytes rounds (tmp / 256) (bytes + 1) in if ltb 0 tmp then more else bytes

-- A `size_t` has eight bytes, so eight rounds are enough.
unfoldable pub der_len_size : ℕ → ℕ
unfolding count_bytes
der_len_size len = if ltb len 128 then 1 else 1 + count_bytes 8 len 0

-- `for (i = bytes - 1; i >= 0; i--) *p++ = (unsigned char)(len >> (i * 8));`
unfoldable pub write_bytes : ℕ → ℕ → Bytes
write_bytes zero len = []
write_bytes (suc i) len = len / 2 ^ (i * 8) % 256 ∷ write_bytes i len

-- What `write_der_len` puts at `p`.
unfoldable pub write_der_len : ℕ → Bytes
unfolding write_bytes
write_der_len len =
    let bytes = der_len_size len - 1 in
    if ltb len 128 then len ∷ [] else bit_or 0x80 bytes % 256 ∷ write_bytes bytes len

-- What `assemble_certificate_der` allocates, and what it writes there.
unfoldable pub cert_der_len : Bytes → Bytes → Bytes → ℕ
cert_der_len tbs_der alg_der bit_der =
    let content_len = length tbs_der + length alg_der + length bit_der in
    1 + der_len_size content_len + content_len

unfoldable pub write_cert_der : Bytes → Bytes → Bytes → Bytes
write_cert_der tbs_der alg_der bit_der =
    let content_len = length tbs_der + length alg_der + length bit_der in
    0x30 ∷ (write_der_len content_len ++ (tbs_der ++ (alg_der ++ bit_der)))
