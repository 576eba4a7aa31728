-- ===== src/Enrollment/Der/Length.antt =====
-- The length octets against the rules of DER (X.690, 8.1.3 and 10.1): a reader that follows them
-- gets the length back, and no shorter form exists.
use Prim.Native.Nat.{bit_or}
use native.Mathlib.Numerals.{towards_suc}
use native.Mathlib.Nat.{mul_comm, div-eq_of_lt, pow-suc, div-div-eq-div-mul}
use nirantara.Common.{
  ℕ, zero, suc, ◌+◌, ◌-◌, ◌*◌, ◌/◌, ◌%◌, ◌^◌, ◌≤◌, ◌<◌, ◌≡◌, refl, ap, ◌∙◌, false, ◌||◌, inl, inr,
  Option, none, some, [], ◌∷◌, ◌++◌, ltb, ◌==◌, if◌then◌else◌, Bool-cases, ltb→lt, length, take,
  drop, length-append, take-length-append, drop-length-append, All, arith,
}
use nirantara.Common.Text.{Bytes}
use nirantara.Enrollment.Der.{count_bytes, der_len_size, write_bytes, write_der_len}

-- A big-endian number behind `acc`.
unfoldable pub big_endian : ℕ → Bytes → ℕ
big_endian acc [] = acc
big_endian acc (b ∷ bs) = big_endian (acc * 256 + b) bs

-- A reader of length octets: the short form below 0x80, else the number of octets that follow.
-- It is independent of the writer. `none` is the indefinite form, a long form that is cut short,
-- or one that is not minimal.
unfoldable pub read_der_len : Bytes → Option (ℕ × Bytes)
unfolding big_endian
read_der_len [] = none
read_der_len (b ∷ rest) =
    let count = b - 128 in
    let value = big_endian 0 (take count rest) in
    if ltb b 128
    then some (b, rest)
    else if count == 0 || ltb (length rest) count || ltb value 128 || ltb value (256 ^ (count - 1))
    then none
    else some (value, drop count rest)

-- The number of bytes that the loop counts: the least `k` with `len < 256 ^ k`.
count_bytes_acc :
    (rounds tmp bytes : ℕ) → count_bytes rounds tmp bytes ≡ bytes + count_bytes rounds tmp 0
unfolding count_bytes
count_bytes_acc zero tmp bytes = omega arith
count_bytes_acc (suc rounds) tmp bytes =
    ground
      (arith, count_bytes_acc rounds (tmp / 256) (bytes + 1), count_bytes_acc rounds (tmp / 256) 1)

-- One round on a number that is not zero.
count_bytes_step :
    (rounds tmp : ℕ)
    → 0 < tmp
    → count_bytes (suc rounds) tmp 0 ≡ suc (count_bytes rounds (tmp / 256) 0)
unfolding count_bytes
count_bytes_step rounds tmp h = ground (arith, count_bytes_acc rounds (tmp / 256) 1)

count_bytes_upper : (rounds tmp : ℕ) → tmp < 256 ^ rounds → tmp < 256 ^ count_bytes rounds tmp 0
unfolding count_bytes
count_bytes_upper zero tmp h = h
count_bytes_upper (suc rounds) zero h = omega arith
count_bytes_upper (suc rounds) (suc t) h =
    let fits : suc t / 256 < 256 ^ rounds = omega (arith, pow-suc 256 rounds) in
    let ih = count_bytes_upper rounds (suc t / 256) fits in
    rw (count_bytes_step rounds (suc t) (omega arith)) (rw pow-suc (omega (arith, ih)))

count_bytes-zero : (rounds : ℕ) → count_bytes rounds 0 0 ≡ 0
unfolding count_bytes
count_bytes-zero zero = refl
count_bytes-zero (suc rounds) = refl

pow_up : (m x : ℕ) → 0 < x → 256 ^ (m - 1) ≤ x / 256 → 256 ^ (suc m - 1) ≤ x
pow_up zero x h e = omega arith
pow_up (suc m) x h e =
    let up : suc (suc m) - 1 ≡ suc m = omega arith in
    let down : suc m - 1 ≡ m = omega arith in
    let below : 256 ^ m ≤ x / 256 = rw down at e in rw up (omega (arith, pow-suc 256 m))

count_bytes_lower : (rounds tmp : ℕ) → 0 < tmp → 256 ^ (count_bytes rounds tmp 0 - 1) ≤ tmp
count_bytes_lower zero tmp h = unfold count_bytes in omega arith
count_bytes_lower (suc rounds) tmp h =
    rw (count_bytes_step rounds tmp h) (elim (Bool-cases (ltb 0 (tmp / 256))) [
      | inl e ↦ pow_up _ tmp h (count_bytes_lower rounds (tmp / 256) (ltb→lt 0 _ e))
      | inr e ↦ let z : tmp / 256 ≡ 0 = ground arith in rw (z, count_bytes-zero) (omega arith)
    ])

shift_byte : (i : ℕ) → 2 ^ (suc i * 8) ≡ 256 * 2 ^ (i * 8)
shift_byte i = let e : suc i * 8 ≡ i * 8 + 8 = omega arith in rw e (simp towards_suc (omega arith))

pow_bytes : (i : ℕ) → 2 ^ (i * 8) ≡ 256 ^ i
pow_bytes zero = refl
pow_bytes (suc i) = omega (arith, shift_byte i, pow_bytes i, pow-suc 256 i)

length-write_bytes : (n len : ℕ) → length (write_bytes n len) ≡ n
unfolding write_bytes
length-write_bytes zero len = refl
length-write_bytes (suc n) len = ap suc (length-write_bytes n len)

byte_back : (len p : ℕ) → len / (256 * p) * 256 + len / p % 256 ≡ len / p
byte_back len p = rw (mul_comm 256 p) (rw (← div-div-eq-div-mul) (omega arith))

-- The bytes written bring a reader from the part above them to the whole number.
big_endian-write_bytes : (n len : ℕ) → big_endian (len / 2 ^ (n * 8)) (write_bytes n len) ≡ len
unfolding big_endian write_bytes
big_endian-write_bytes zero len = omega arith
big_endian-write_bytes (suc n) len = rw (shift_byte n) (
    ap (λ t. big_endian t (write_bytes n len)) (byte_back len (2 ^ (n * 8)))
    ∙ big_endian-write_bytes n len)

write_bytes-IsByte : (n len : ℕ) → All (λ b. b < 256) (write_bytes n len)
unfolding write_bytes
write_bytes-IsByte zero len = tt
write_bytes-IsByte (suc n) len = (omega arith, write_bytes-IsByte n len)

-- `0x80 | bytes` for the counts that occur.
long_form : (k : ℕ) → k < 9 → bit_or 0x80 k % 256 ≡ 128 + k
long_form zero h = refl
long_form (suc zero) h = refl
long_form (suc (suc zero)) h = refl
long_form (suc (suc (suc zero))) h = refl
long_form (suc (suc (suc (suc zero)))) h = refl
long_form (suc (suc (suc (suc (suc zero))))) h = refl
long_form (suc (suc (suc (suc (suc (suc zero)))))) h = refl
long_form (suc (suc (suc (suc (suc (suc (suc zero))))))) h = refl
long_form (suc (suc (suc (suc (suc (suc (suc (suc zero)))))))) h = refl
long_form (suc (suc (suc (suc (suc (suc (suc (suc (suc k))))))))) h = absurd (omega arith)

count_bytes-le : (rounds tmp : ℕ) → count_bytes rounds tmp 0 ≤ rounds
count_bytes-le zero tmp = unfold count_bytes in omega arith
count_bytes-le (suc rounds) zero = rw (count_bytes-zero (suc rounds)) (omega arith)
count_bytes-le (suc rounds) (suc t) =
    rw (count_bytes_step rounds (suc t) (omega arith))
      (omega (arith, count_bytes-le rounds (suc t / 256)))

-- `write_der_len` writes exactly as many bytes as `der_len_size` announces, for every `size_t`.
pub length-write_der_len : (len : ℕ) → length (write_der_len len) ≡ der_len_size len
unfolding write_der_len der_len_size
length-write_der_len len = ground (arith, length-write_bytes (count_bytes 8 len 0) len)

der_len_size-le : (len : ℕ) → der_len_size len ≤ 9
unfolding der_len_size
der_len_size-le len = ground (arith, count_bytes-le 8 len)

write_der_len_long :
    (len : ℕ)
    → 128 ≤ len
    → write_der_len len ≡ (128 + count_bytes 8 len 0) ∷ write_bytes (count_bytes 8 len 0) len
unfolding write_der_len der_len_size
write_der_len_long len h = ground (arith, long_form (count_bytes 8 len 0), count_bytes-le 8 len)

-- The reader on a long form with `k` octets.
read_der_len_long :
    (k : ℕ) (bytes rest : Bytes)
    → length bytes ≡ k
    → 0 < k
    → 128 ≤ big_endian 0 bytes
    → 256 ^ (k - 1) ≤ big_endian 0 bytes
    → read_der_len ((128 + k) ∷ (bytes ++ rest)) ≡ some (big_endian 0 bytes, rest)
unfolding read_der_len
read_der_len_long k bytes rest e pos big least =
    let count : 128 + k - 128 ≡ length bytes = omega arith in
    let fits : ltb (length (bytes ++ rest)) (length bytes) ≡ false =
      ground (arith, length-append bytes rest) in
    let long : ltb (128 + k) 128 ≡ false = ground arith in
    let some_octets : length bytes == 0 ≡ false = ground arith in
    let not_short : ltb (big_endian 0 bytes) 128 ≡ false = ground arith in
    let minimal : ltb (big_endian 0 bytes) (256 ^ (length bytes - 1)) ≡ false =
      rw e (ground arith) in
    rw (long, count, some_octets, fits, take-length-append, not_short, minimal, drop-length-append)

big_endian-write_bytes_whole : (k len : ℕ) → len < 256 ^ k → big_endian 0 (write_bytes k len) ≡ len
big_endian-write_bytes_whole k len h =
    let none_above : len / 2 ^ (k * 8) ≡ 0 = rw (pow_bytes k) (div-eq_of_lt h) in
    rw none_above at (big_endian-write_bytes k len)

-- A reader that follows the rules of DER, and refuses every form that is not minimal, gets back the
-- length of any `size_t`, and stops where the contents begin.
pub read_der_len-write_der_len :
    (len : ℕ) (rest : Bytes)
    → len < 2 ^ 64
    → read_der_len (write_der_len len ++ rest) ≡ some (len, rest)
read_der_len-write_der_len len rest h = elim (Bool-cases (ltb len 128)) [
  | inl e ↦ unfold read_der_len write_der_len in ground arith
  | inr e ↦
      let k = count_bytes 8 len 0 in
      let whole = big_endian-write_bytes_whole k len (count_bytes_upper 8 len (omega arith)) in
      let least = count_bytes_lower 8 len (ground arith) in
      rw (write_der_len_long len (ground arith)) (
        read_der_len_long k (write_bytes k len) rest (length-write_bytes k len)
          (ground (arith, count_bytes_step 7 len)) (rw whole (ground arith)) (rw whole least)
        ∙ ap (λ (t : ℕ). some (t, rest)) whole)
]
