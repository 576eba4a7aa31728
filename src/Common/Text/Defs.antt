-- ===== src/Common/Text/Defs.antt =====
-- Bytes, the tests of <ctype.h>, and the comparisons and searches of <string.h>.
use Prim.Native.Char.{code}
use Prim.Native.Nat.{ℕ, ◌+◌}
use Prim.Native.String.{String}
use mathlib.Core.Bool.{Bool, true, false, ◌&&◌, ◌||◌}
use mathlib.Core.List.{List, [], ◌∷◌}
use mathlib.Core.Option.{Option, none, some}
use nirantara.Common.Tests.{leb, ◌==◌, if◌then◌else◌}

abbrev pub Bytes : Type 0
Bytes = List ℕ

-- The bytes of an ASCII literal.
abbrev pub codes : String → Bytes
codes String.[] = []
codes (String.◌∷◌ c s) = code c ∷ codes s

abbrev pub within : ℕ → ℕ → ℕ → Bool
within lo hi c = leb lo c && leb c hi

-- The string that starts a block of memory: what stands before the first NUL.
unfoldable pub cstr : Bytes → Bytes
cstr [] = []
cstr (c ∷ cs) = let rest = c ∷ cstr cs in if c == 0 then [] else rest

abbrev pub is_digit : ℕ → Bool
is_digit = within b'0' b'9'

abbrev pub is_space : ℕ → Bool
is_space c = c == b' ' || within 9 13 c

abbrev pub is_alnum : ℕ → Bool
is_alnum c = within b'a' b'z' c || within b'A' b'Z' c || is_digit c

abbrev pub to_lower : ℕ → ℕ
to_lower c = if within b'A' b'Z' c then c + 32 else c

-- `strcmp(a, b) == 0`
unfoldable pub equal : Bytes → Bytes → Bool
equal [] [] = true
equal [] (d ∷ t) = false
equal (c ∷ s) [] = false
equal (c ∷ s) (d ∷ t) = let rest = equal s t in if c == d then rest else false

-- `strcasecmp(a, b) == 0`
unfoldable pub equal_nocase : Bytes → Bytes → Bool
equal_nocase [] [] = true
equal_nocase (x ∷ xs) (y ∷ ys) = to_lower x == to_lower y && equal_nocase xs ys
equal_nocase _ _ = false

-- `strncmp(s, p, strlen(p)) == 0`
unfoldable pub starts_with : Bytes → Bytes → Bool
starts_with s [] = true
starts_with [] (y ∷ ys) = false
starts_with (x ∷ xs) (y ∷ ys) = x == y && starts_with xs ys

abbrev pub before : ℕ → Option (Bytes × Bytes) → Option (Bytes × Bytes)
before c none = none
before c (some (front, rest)) = some (c ∷ front, rest)

-- `strstr(s, p)`: what stands before the first occurrence, and the string from it on.
unfoldable pub strstr : Bytes → Bytes → Option (Bytes × Bytes)
unfolding starts_with
strstr [] p = if starts_with [] p then some ([], []) else none
strstr (c ∷ s) p =
    let later = before c (strstr s p) in if starts_with (c ∷ s) p then some ([], c ∷ s) else later

-- `strchr(s, b)` for `b` not NUL, in the same form.
unfoldable pub strchr : Bytes → ℕ → Option (Bytes × Bytes)
strchr [] b = none
strchr (c ∷ s) b = let later = before c (strchr s b) in if c == b then some ([], c ∷ s) else later

-- `while (p(*s)) s++;`
unfoldable pub drop_while : (ℕ → Bool) → Bytes → Bytes
drop_while p [] = []
drop_while p (c ∷ s) = let rest = drop_while p s in if p c then rest else c ∷ s

-- The loop that walks back from the end while `p` holds: a byte is dropped if `p` holds of it and
-- all that follows it is dropped.
unfoldable pub drop_while_end : (ℕ → Bool) → Bytes → Bytes
unfolding equal
drop_while_end p [] = []
drop_while_end p (c ∷ s) =
    let rest = drop_while_end p s in if p c && equal rest [] then [] else c ∷ rest
