-- ===== src/Enrollment/Certificate/DeviceId.antt =====
-- Which device ids enrollment/src/enrollment.c takes.
use nirantara.Common.{ℕ, ◌≤◌, ◌<◌, ◌≡◌, ◌↔◌, ◌⊎◌, true, some, [], ◌∷◌, All, arith, length}
use nirantara.Common.Text.{Bytes}
use nirantara.Enrollment.Certificate.{max_device_id_len, is_id_char, all_id_chars, valid_device_id}

all_id_chars_iff : (id : Bytes) → (all_id_chars id ≡ true) ↔ All (λ c. is_id_char c ≡ true) id
unfolding all_id_chars
all_id_chars_iff [] = (λ h. tt, λ h. ground arith)
all_id_chars_iff (c ∷ id) = ground (arith, all_id_chars_iff id)

pub valid_chars :
    (id : Bytes)
    → (valid_device_id (some id) ≡ true)
      ↔ ((1 ≤ length id) × (length id ≤ max_device_id_len) × All (λ c. is_id_char c ≡ true) id)
unfolding valid_device_id
valid_chars id = ground (arith, all_id_chars_iff id)

-- A letter, a digit or one of "-_.:".
abbrev pub IsIdChar : ℕ → Type 0
IsIdChar c =
    ((b'a' ≤ c) × (c ≤ b'z'))
    ⊎ ((b'A' ≤ c) × (c ≤ b'Z'))
    ⊎ ((b'0' ≤ c) × (c ≤ b'9'))
    ⊎ (c ≡ b'-')
    ⊎ (c ≡ b'_')
    ⊎ (c ≡ b'.')
    ⊎ (c ≡ b':')

is_id_char_iff : (c : ℕ) → (is_id_char c ≡ true) ↔ IsIdChar c
is_id_char_iff c = ground arith

All-IsIdChar_iff : (id : Bytes) → All (λ c. is_id_char c ≡ true) id ↔ All IsIdChar id
All-IsIdChar_iff [] = (λ h. tt, λ h. tt)
All-IsIdChar_iff (c ∷ id) =
    let (to, from) = is_id_char_iff c in
    let (all_to, all_from) = All-IsIdChar_iff id in
    (λ h. (to h.0, all_to h.1), λ h. (from h.0, all_from h.1))

-- An id is valid exactly when it has 1 to 128 characters, each a letter, a digit or one of "-_.:".
pub valid_device_id_iff :
    (id : Bytes)
    → (valid_device_id (some id) ≡ true) ↔ ((1 ≤ length id) × (length id ≤ 128) × All IsIdChar id)
valid_device_id_iff id =
    let (to, from) = valid_chars id in
    let (all_to, all_from) = All-IsIdChar_iff id in
    (
      (λ h. let (some_, few, all) = to h in (some_, few, all_to all)),
      (λ h. let (some_, few, all) = h in from (some_, few, all_from all)),
    )

-- A character that can neither end a header line nor be trimmed from one.
abbrev pub IsPlain : ℕ → Type 0
IsPlain c = b' ' < c

is_id_char-IsPlain : (c : ℕ) → is_id_char c ≡ true → IsPlain c
is_id_char-IsPlain c h = ground arith

All-IsPlain : (id : Bytes) → All (λ c. is_id_char c ≡ true) id → All IsPlain id
All-IsPlain [] h = tt
All-IsPlain (c ∷ id) h = (is_id_char-IsPlain c h.0, All-IsPlain id h.1)

-- A valid id holds no blank, no control character and no NUL, so it cannot break out of a header
-- line or of a C string.
valid_device_id-IsPlain : (id : Bytes) → valid_device_id (some id) ≡ true → All IsPlain id
valid_device_id-IsPlain id h = All-IsPlain id ((valid_chars id).0 h).2
