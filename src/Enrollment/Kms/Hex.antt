-- ===== src/Enrollment/Kms/Hex.antt =====
-- `bytes_to_hex` against a reader of hexadecimal digits.
use nirantara.Common.{
  ℕ, zero, suc, ◌+◌, ◌-◌, ◌*◌, ◌/◌, ◌%◌, ◌^◌, ◌<◌, ◌≡◌, refl, Option, none, some, [], ◌∷◌, length,
  if◌then◌else◌, All, arith,
}
use nirantara.Common.Text.{Bytes, is_digit}
use nirantara.Enrollment.Kms.{bytes_to_hex, char_at, hex}

abbrev pub digit_value : ℕ → ℕ
digit_value ch = if is_digit ch then ch - b'0' else ch - b'a' + 10

abbrev pub add_byte : ℕ → Option Bytes → Option Bytes
add_byte b none = none
add_byte b (some bytes) = some (b ∷ bytes)

-- The bytes that pairs of digits stand for.
unfoldable pub unhex : Bytes → Option Bytes
unhex [] = some []
unhex (d ∷ []) = none
unhex (d ∷ e ∷ s) = add_byte (digit_value d * 16 + digit_value e) (unhex s)

digit_value-char_at : (n : ℕ) → n < 16 → digit_value (char_at hex n) ≡ n
digit_value-char_at zero h = refl
digit_value-char_at (suc zero) h = refl
digit_value-char_at (suc (suc zero)) h = refl
digit_value-char_at (suc (suc (suc zero))) h = refl
digit_value-char_at (suc (suc (suc (suc zero)))) h = refl
digit_value-char_at (suc (suc (suc (suc (suc zero))))) h = refl
digit_value-char_at (suc (suc (suc (suc (suc (suc zero)))))) h = refl
digit_value-char_at (suc (suc (suc (suc (suc (suc (suc zero))))))) h = refl
digit_value-char_at (suc (suc (suc (suc (suc (suc (suc (suc zero)))))))) h = refl
digit_value-char_at (suc (suc (suc (suc (suc (suc (suc (suc (suc zero))))))))) h = refl
digit_value-char_at (suc (suc (suc (suc (suc (suc (suc (suc (suc (suc zero)))))))))) h = refl
digit_value-char_at (suc (suc (suc (suc (suc (suc (suc (suc (suc (suc (suc zero))))))))))) h = refl
digit_value-char_at (suc (suc (suc (suc (suc (suc (suc (suc (suc (suc (suc (suc zero)))))))))))) h =
    refl
digit_value-char_at
      (suc (suc (suc (suc (suc (suc (suc (suc (suc (suc (suc (suc (suc zero))))))))))))) h =
    refl
digit_value-char_at
      (suc (suc (suc (suc (suc (suc (suc (suc (suc (suc (suc (suc (suc (suc zero)))))))))))))) h =
    refl
digit_value-char_at
      (suc (suc (suc (suc (suc (suc (suc (suc (suc (suc (suc (suc (suc (suc (suc zero)))))))))))))))
      h =
    refl
digit_value-char_at
      (suc
        (suc (suc (suc (suc (suc (suc (suc (suc (suc (suc (suc (suc (suc (suc (suc n))))))))))))))))
      h =
    absurd (omega arith)

-- Reading the hexadecimal text of bytes gives the bytes back, and the text has two digits to a byte.
unhex-bytes_to_hex :
    (bytes : Bytes)
    → All (λ b. b < 256) bytes
    → (unhex (bytes_to_hex bytes) ≡ some bytes) × (length (bytes_to_hex bytes) ≡ 2 * length bytes)
unfolding bytes_to_hex unhex
unhex-bytes_to_hex [] h = (refl, refl)
unhex-bytes_to_hex (b ∷ bytes) h =
    let (read, long) = unhex-bytes_to_hex bytes h.1 in
    let high = digit_value-char_at (b / 2 ^ 4) (omega (arith, h.0)) in
    let low = digit_value-char_at (b % 16) (omega (arith, h.0)) in
    (rw (high, low, read) (ground arith), omega (arith, long))
