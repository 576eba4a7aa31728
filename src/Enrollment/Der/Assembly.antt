-- ===== src/Enrollment/Der/Assembly.antt =====
-- The certificate that `assemble_certificate_der` writes: one SEQUENCE of its three parts, in a
-- buffer of exactly the size allocated.
use nirantara.Common.{
  ℕ, ◌+◌, ◌^◌, ◌<◌, ◌≡◌, Option, none, some, [], ◌∷◌, ◌++◌, ◌==◌, if◌then◌else◌, length,
  length-append, arith,
}
use nirantara.Common.Text.{Bytes}
use nirantara.Enrollment.Der.{cert_der_len, write_cert_der}
use nirantara.Enrollment.Der.Length.{read_der_len, length-write_der_len, read_der_len-write_der_len}

-- The contents, if what was read is all there is.
abbrev exactly : Option (ℕ × Bytes) → Option Bytes
exactly none = none
exactly (some (len, contents)) = if length contents == len then some contents else none

-- A reader for one DER SEQUENCE that fills the input.
unfoldable pub read_sequence : Bytes → Option Bytes
read_sequence [] = none
read_sequence (tag ∷ rest) = if tag == 0x30 then exactly (read_der_len rest) else none

-- The writes of `assemble_certificate_der` fill the allocated buffer, and nothing beyond it.
pub length-write_cert_der :
    (tbs_der alg_der bit_der : Bytes)
    → length (write_cert_der tbs_der alg_der bit_der) ≡ cert_der_len tbs_der alg_der bit_der
unfolding write_cert_der cert_der_len
length-write_cert_der tbs alg bit =
    let n = length tbs + length alg + length bit in
    rw (length-append, length-append, length-append) (omega (arith, length-write_der_len n))

-- The assembled certificate is one DER SEQUENCE, whose contents are the signed part, the algorithm
-- and the signature, in this order, whenever their length is a `size_t`.
pub read_sequence-write_cert_der :
    (tbs_der alg_der bit_der : Bytes)
    → length tbs_der + length alg_der + length bit_der < 2 ^ 64
    → read_sequence (write_cert_der tbs_der alg_der bit_der)
      ≡ some (tbs_der ++ (alg_der ++ bit_der))
unfolding read_sequence write_cert_der
read_sequence-write_cert_der tbs alg bit h =
    let n = length tbs + length alg + length bit in
    rw (read_der_len-write_der_len n (tbs ++ (alg ++ bit)) h)
      (ground (arith, length-append tbs (alg ++ bit), length-append alg bit))
