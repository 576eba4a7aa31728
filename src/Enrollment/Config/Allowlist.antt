-- ===== src/Enrollment/Config/Allowlist.antt =====
-- The device allowlist of enrollment/src/config.c: what is loaded from the file, and who passes.
use nirantara.Common.{
  ℕ, ◌≡◌, ◌≢◌, ◌↔◌, ◌⊎◌, inl, inr, true, false, List, [], ◌∷◌, ◌++◌, if◌then◌else◌, Bool-cases, All,
  arith, length, ◌∙◌, append-nil, append_assoc,
}
use nirantara.Common.Text.{Bytes, cstr, is_space}
use nirantara.Common.Text.Search.{equal_iff, cstr-no_nul}
use nirantara.Common.Text.Trim.{IsTrimmed, trim-IsTrimmed, All-drop_while, All-drop_while_end}
use nirantara.Enrollment.Config.{
  Config, Host, trim_line, is_skipped, load_lines, device_allowed, listed,
}

-- What a line of the file names, if anything.
abbrev pub name_of : Bytes → Bytes
name_of line = trim_line (cstr line)

-- The devices of a file: its lines, trimmed, without the blank ones and the comments.
unfoldable pub devices : List Bytes → List Bytes
devices [] = []
devices (line ∷ lines) =
    let rest = devices lines in if is_skipped (name_of line) then rest else name_of line ∷ rest

abbrev pub add_devices : Config → List Bytes → Config
add_devices c ds = record c { allowed_devices = c.allowed_devices ++ ds }

pub load_lines_appends :
    (host : Host) (lines : List Bytes) (c : Config)
    → ((n : ℕ) → host.has_memory_at n ≡ true)
    → load_lines host lines c ≡ (true, add_devices c (devices lines))
unfolding load_lines devices
load_lines_appends host [] c h = rw append-nil
load_lines_appends host (line ∷ lines) c h = elim (Bool-cases (is_skipped (name_of line))) [
  | inl skip ↦ rw skip (load_lines_appends host lines c h)
  | inr keep ↦
      rw (keep, h)
        (rw (load_lines_appends host lines (add_devices c (name_of line ∷ [])) h, append_assoc))
]

-- Where `load_lines` goes well, memory or not, the devices of the file have been appended.
pub load_lines_sound :
    (host : Host) (lines : List Bytes) (c c' : Config)
    → load_lines host lines c ≡ (true, c')
    → c' ≡ add_devices c (devices lines)
unfolding load_lines devices
load_lines_sound host [] c c' h = rw append-nil (ground arith)
load_lines_sound host (line ∷ lines) c c' h = elim (Bool-cases (is_skipped (name_of line))) [
  | inl skip ↦ rw skip (load_lines_sound host lines c c' (rw skip at h))
  | inr keep ↦ rw keep (elim (Bool-cases (host.has_memory_at (length c.allowed_devices))) [
    | inl e ↦
        load_lines_sound host lines (add_devices c (name_of line ∷ [])) c' (rw (keep, e) at h)
        ∙ rw append_assoc
    | inr e ↦ cc (rw (keep, e) at h)
  ])
]

-- A name that can stand on the list: not empty, no comment, no blank at either end, no NUL.
pub record IsDeviceName (d : Bytes) : Type 0 where
  pub trimmed : IsTrimmed is_space d
  pub kept : is_skipped d ≡ false
  pub no_nul : All (λ c. c ≢ 0) d

name_of-IsDeviceName :
    (line : Bytes) → is_skipped (name_of line) ≡ false → IsDeviceName (name_of line)
unfolding trim_line
name_of-IsDeviceName line h = record {
  trimmed = trim-IsTrimmed is_space (cstr line);
  kept = h;
  no_nul = All-drop_while_end _ is_space _ (All-drop_while _ is_space _ (cstr-no_nul line));
}

-- Whatever the lines of the file hold, each device they name is not empty, does not start a
-- comment, has no blank at either end, and holds no NUL.
devices-IsDeviceName : (lines : List Bytes) → All IsDeviceName (devices lines)
unfolding devices
devices-IsDeviceName [] = tt
devices-IsDeviceName (line ∷ lines) = elim (Bool-cases (is_skipped (name_of line))) [
  | inl skip ↦ rw skip (devices-IsDeviceName lines)
  | inr keep ↦ rw keep (name_of-IsDeviceName line keep, devices-IsDeviceName lines)
]

abbrev pub IsListed : Bytes → List Bytes → Type 0
IsListed d [] = ⊥
IsListed d (x ∷ xs) = (x ≡ d) ⊎ IsListed d xs

listed_iff : (ds : List Bytes) (d : Bytes) → (listed ds d ≡ true) ↔ IsListed d ds
unfolding listed
listed_iff [] d = (λ h. cc, λ h. absurd h)
listed_iff (x ∷ xs) d = ground (arith, equal_iff x d, listed_iff xs d)

-- A device is allowed exactly when the configuration allows any, or lists it byte for byte.
device_allowed_iff :
    (c : Config) (d : Bytes)
    → (device_allowed c d ≡ true) ↔ ((c.allow_any_device ≡ true) ⊎ IsListed d c.allowed_devices)
unfolding device_allowed
device_allowed_iff c d = ground (arith, listed_iff c.allowed_devices d)
