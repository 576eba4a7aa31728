-- ===== src/Enrollment/Kms/Json.antt =====
-- The JSON of enrollment/src/kms.c: what `json_escape` writes is what `json_get_string` reads.
use nirantara.Common.{
  ℕ, ◌+◌, ◌==◌, ◌<◌, ◌≡◌, ◌≢◌, refl, ap, ◌∙◌, Bool, true, false, inl, inr, some, [], ◌∷◌, ◌++◌, ltb,
  if◌then◌else◌, length, drop-length-append, All, Bool-cases, arith,
}
use nirantara.Common.Text.{Bytes, is_space, strstr, drop_while}
use nirantara.Common.Text.Search.{strstr-append, strchr-append}
use nirantara.Enrollment.Kms.{
  must_escape, count_escapes, escaped, json_escape, quoted, in_front, string_value, json_get_string,
}

-- What an escaped text stands for.
unfoldable pub unescape : Bytes → Bytes
unescape [] = []
unescape (c ∷ []) = c ∷ []
unescape (c ∷ d ∷ s) =
    let two = d ∷ unescape s in let one = c ∷ unescape (d ∷ s) in if c == b'\\' then two else one

length-escaped : (input : Bytes) → length (escaped input) ≡ length input + count_escapes input
unfolding escaped count_escapes
length-escaped [] = refl
length-escaped (c ∷ input) = ground (arith, length-escaped input)

unescape_plain : (c : ℕ) (s : Bytes) → must_escape c ≡ false → unescape (c ∷ s) ≡ c ∷ unescape s
unfolding unescape
unescape_plain c [] h = refl
unescape_plain c (d ∷ s) h = ground arith

unescape-escaped : (input : Bytes) → unescape (escaped input) ≡ input
unfolding escaped unescape
unescape-escaped [] = refl
unescape-escaped (c ∷ input) = elim (Bool-cases (must_escape c)) [
  | inl e ↦ rw e (ap (◌∷◌ c) (unescape-escaped input))
  | inr e ↦ rw e (unescape_plain c (escaped input) e ∙ ap (◌∷◌ c) (unescape-escaped input))
]

pub escaped_plain : (s : Bytes) → All (λ c. must_escape c ≡ false) s → escaped s ≡ s
unfolding escaped
escaped_plain [] h = refl
escaped_plain (c ∷ s) h = rw (h.0, escaped_plain s h.1)

string_value_plain :
    (c : ℕ) (s : Bytes)
    → must_escape c ≡ false
    → string_value (c ∷ s) ≡ in_front (c ∷ []) (string_value s)
unfolding string_value
string_value_plain c [] h = ground arith
string_value_plain c (d ∷ s) h = ground arith

-- The quote behind an escaped text is the one that closes it.
pub string_value-escaped :
    (value rest : Bytes) → string_value (escaped value ++ b'"' ∷ rest) ≡ some (escaped value)
unfolding escaped string_value
string_value-escaped [] [] = refl
string_value-escaped [] (d ∷ rest) = refl
string_value-escaped (c ∷ value) rest = elim (Bool-cases (must_escape c)) [
  | inl e ↦ rw e (ap (in_front (b'\\' ∷ c ∷ [])) (string_value-escaped value rest))
  | inr e ↦ rw e (
      string_value_plain c (escaped value ++ b'"' ∷ rest) e
      ∙ ap (in_front (c ∷ [])) (string_value-escaped value rest))
]

drop_while_past :
    (p : ℕ → Bool) (s : Bytes) (c : ℕ) (rest : Bytes)
    → All (λ ch. p ch ≡ true) s
    → p c ≡ false
    → drop_while p (s ++ c ∷ rest) ≡ c ∷ rest
unfolding drop_while
drop_while_past p [] c rest h e = rw e
drop_while_past p (x ∷ s) c rest h e = rw (h.0) (drop_while_past p s c rest h.1 e)

-- The text of a member of an object, with what stands around it.
abbrev pub member : Bytes → Bytes → Bytes → Bytes → Bytes → Bytes → Bytes
member before key gap space value rest =
    (before ++ quoted key) ++ (gap ++ b':' ∷ (space ++ b'"' ∷ (value ++ b'"' ∷ rest)))

pub json_get_string_reads :
    (has_memory : ℕ → Bool) (before key gap space value rest : Bytes)
    → length (quoted key) < 128
    → strstr (before ++ quoted key) (quoted key) ≡ some (before, quoted key)
    → All (λ c. c ≢ b':') gap
    → All (λ c. is_space c ≡ true) space
    → string_value (value ++ b'"' ∷ rest) ≡ some value
    → has_memory (length value + 1) ≡ true
    → json_get_string has_memory (member before key gap space value rest) key ≡ some value
unfolding json_get_string
json_get_string_reads has_memory before key gap space value rest fits first no_colon blank read
      memory =
    let behind = space ++ b'"' ∷ (value ++ b'"' ∷ rest) in
    let small : ltb (length (quoted key)) 128 ≡ true = ground (arith, fits) in
    let at_key =
      strstr-append (before ++ quoted key) (quoted key) (gap ++ b':' ∷ behind) before (quoted key)
        first in
    let past_key = drop-length-append (quoted key) (gap ++ b':' ∷ behind) in
    let at_colon = strchr-append gap b':' behind no_colon in
    let at_quote = drop_while_past is_space space b'"' (value ++ b'"' ∷ rest) blank refl in
    rw (small, at_key, past_key, at_colon, at_quote, read, memory) refl

-- `json_escape` succeeds when it gets the memory that it counts, which what it writes fills with its
-- terminator, what it writes stands for the input, and `json_get_string` reads exactly that from an
-- object in which the key, of less than 126 bytes, stands first with this string as its value: with
-- any white space around the value, and no colon between the key and its own.
pub json_get_string-json_escape :
    (has_memory : ℕ → Bool) (before key gap space value rest : Bytes)
    → length (quoted key) < 128
    → strstr (before ++ quoted key) (quoted key) ≡ some (before, quoted key)
    → All (λ c. c ≢ b':') gap
    → All (λ c. is_space c ≡ true) space
    → has_memory (length value + count_escapes value + 1) ≡ true
    → (written : Bytes) × (json_escape has_memory value ≡ some written)
      × (length written ≡ length value + count_escapes value)
      × (unescape written ≡ value)
      × (json_get_string has_memory (member before key gap space written rest) key ≡ some written)
unfolding json_escape
json_get_string-json_escape has_memory before key gap space value rest fits first no_colon blank
      memory =
    (
      escaped value,
      rw memory refl,
      length-escaped value,
      unescape-escaped value,
      json_get_string_reads has_memory before key gap space (escaped value) rest fits first no_colon
          blank (string_value-escaped value rest) (rw (length-escaped value) memory),
    )
