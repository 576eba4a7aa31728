-- ===== src/Enrollment/Config/Lines.antt =====
-- What the lines of an allowlist are for enrollment/src/config.c, by what stands in them.
use nirantara.Common.{
  ℕ, ◌≤◌, ◌≡◌, ◌≢◌, ◌⊎◌, inl, inr, refl, ap, ◌∙◌, true, false, List, [], ◌∷◌, ◌++◌, Bool-cases, All,
  arith, subst,
}
use nirantara.Common.Text.{Bytes, cstr, is_space, drop_while, drop_while_end, equal}
use nirantara.Enrollment.Config.{Host, Config, trim_line, is_skipped, load_lines}
use nirantara.Enrollment.Config.Allowlist.{name_of, devices, load_lines_appends}

-- A space, or one of the controls from tab to carriage return.
abbrev pub IsBlank : ℕ → Type 0
IsBlank c = (c ≡ 32) ⊎ ((9 ≤ c) × (c ≤ 13))

abbrev pub IsInk : ℕ → Type 0
IsInk c = IsBlank c → ⊥

abbrev pub StartsWell : Bytes → Type 0
StartsWell [] = Unit
StartsWell (c ∷ s) = IsInk c

abbrev pub EndsWell : Bytes → Type 0
EndsWell [] = Unit
EndsWell (c ∷ []) = IsInk c
EndsWell (c ∷ d ∷ s) = EndsWell (d ∷ s)

-- The line, up to a NUL, is the name between blanks.
pub record HasName (line name : Bytes) : Type 0 where
  pub left : Bytes
  pub right : Bytes
  pub split : cstr line ≡ left ++ (name ++ right)
  pub left_blank : All IsBlank left
  pub right_blank : All IsBlank right
  pub starts : StartsWell name
  pub ends : EndsWell name

-- The devices that the lines name: a line without a name, or with a name that starts with `#`, names
-- none.
pub data Names : List Bytes → List Bytes → Type 0 where
  no_lines : Names [] []
  empty_line :
      {line : Bytes} {lines ds : List Bytes}
      → HasName line []
      → Names lines ds
      → Names (line ∷ lines) ds
  comment_line :
      {line s : Bytes} {lines ds : List Bytes}
      → HasName line (b'#' ∷ s)
      → Names lines ds
      → Names (line ∷ lines) ds
  device_line :
      {line s : Bytes} {c : ℕ} {lines ds : List Bytes}
      → HasName line (c ∷ s)
      → c ≢ b'#'
      → Names lines ds
      → Names (line ∷ lines) ((c ∷ s) ∷ ds)

is_space-IsBlank : (c : ℕ) → is_space c ≡ true → IsBlank c
is_space-IsBlank c h = ground arith

is_space-IsInk : (c : ℕ) → is_space c ≡ false → IsInk c
is_space-IsInk c h (inl e) = ground arith
is_space-IsInk c h (inr e) = ground arith

front_cut :
    (s : Bytes)
    → (left : Bytes) × (s ≡ left ++ drop_while is_space s)
      × All IsBlank left
      × StartsWell (drop_while is_space s)
unfolding drop_while
front_cut [] = ([], refl, tt, tt)
front_cut (c ∷ s) = elim (Bool-cases (is_space c)) [
  | inl e ↦
      let (left, split, blank, starts) = front_cut s in
      rw e (c ∷ left, ap (λ t. c ∷ t) split, (is_space-IsBlank c e, blank), starts)
  | inr e ↦ rw e ([], refl, tt, is_space-IsInk c e)
]

EndsWell-cons : (c : ℕ) (t : Bytes) → equal t [] ≡ false → EndsWell t → EndsWell (c ∷ t)
unfolding equal
EndsWell-cons c [] h e = cc
EndsWell-cons c (d ∷ t) h e = e

EndsWell-ink : (c : ℕ) (t : Bytes) → IsInk c → EndsWell t → EndsWell (c ∷ t)
EndsWell-ink c [] h e = h
EndsWell-ink c (d ∷ t) h e = e

nothing_left : (t : Bytes) → equal t [] ≡ true → t ≡ []
unfolding equal
nothing_left [] h = refl
nothing_left (d ∷ t) h = cc

end_cut :
    (s : Bytes)
    → (right : Bytes) × (s ≡ drop_while_end is_space s ++ right)
      × All IsBlank right
      × EndsWell (drop_while_end is_space s)
unfolding drop_while_end
end_cut [] = ([], refl, tt, tt)
end_cut (c ∷ s) =
    let (right, split, blank, ends) = end_cut s in
    let rest = drop_while_end is_space s in
    elim (Bool-cases (is_space c)) [
      | inl e ↦ elim (Bool-cases (equal rest [])) [
        | inl none_left ↦
            let gone : s ≡ right = split ∙ ap (λ t. t ++ right) (nothing_left rest none_left) in
            rw (e, none_left) (c ∷ right, ap (λ t. c ∷ t) gone, (is_space-IsBlank c e, blank), tt)
        | inr more ↦
            rw (e, more) (right, ap (λ t. c ∷ t) split, blank, EndsWell-cons c rest more ends)
      ]
      | inr e ↦
          rw e (right, ap (λ t. c ∷ t) split, blank, EndsWell-ink c rest (is_space-IsInk c e) ends)
    ]

starts_end : (s : Bytes) → StartsWell s → StartsWell (drop_while_end is_space s)
unfolding drop_while_end
starts_end [] h = tt
starts_end (c ∷ s) h = elim (Bool-cases (is_space c)) [
  | inl e ↦ absurd (h (is_space-IsBlank c e))
  | inr e ↦ rw e h
]

named : (line : Bytes) → HasName line (name_of line)
unfolding trim_line
named line =
    let (left, split, blank, starts) = front_cut (cstr line) in
    let rest = drop_while is_space (cstr line) in
    let (right, split', blank', ends) = end_cut rest in
    record {
      left = left;
      right = right;
      split = split ∙ ap (λ t. left ++ t) split';
      left_blank = blank;
      right_blank = blank';
      starts = starts_end rest starts;
      ends = ends;
    }

skipped :
    (line name : Bytes) (lines ds : List Bytes)
    → HasName line name
    → is_skipped name ≡ true
    → Names lines ds
    → Names (line ∷ lines) ds
unfolding is_skipped
skipped line [] lines ds n h rest = empty_line n rest
skipped line (c ∷ s) lines ds n h rest =
    let same : c ≡ b'#' = ground arith in
    comment_line (subst (λ x. HasName line (x ∷ s)) same n) rest

named_line :
    (line name : Bytes) (lines ds : List Bytes)
    → HasName line name
    → is_skipped name ≡ false
    → Names lines ds
    → Names (line ∷ lines) (name ∷ ds)
unfolding is_skipped
named_line line [] lines ds n h rest = cc
named_line line (c ∷ s) lines ds n h rest = device_line n (ground arith) rest

devices-Names : (lines : List Bytes) → Names lines (devices lines)
unfolding devices
devices-Names [] = no_lines
devices-Names (line ∷ lines) = elim (Bool-cases (is_skipped (name_of line))) [
  | inl skip ↦
      rw skip
        (skipped line (name_of line) lines (devices lines) (named line) skip (devices-Names lines))
  | inr keep ↦
      rw keep (
        named_line line (name_of line) lines (devices lines) (named line) keep
          (devices-Names lines))
]

-- When memory suffices, `load_lines` goes well, and appends exactly the devices that the lines name,
-- in order, to those that the configuration had; it changes nothing else. A line names what stands
-- between its blanks, up to a NUL, unless that is empty or starts with `#`.
pub load_lines-devices :
    (host : Host) (lines : List Bytes) (c : Config)
    → ((n : ℕ) → host.has_memory_at n ≡ true)
    → (ds : List Bytes) × Names lines ds
      × (load_lines host lines c ≡ (true, record c { allowed_devices = c.allowed_devices ++ ds }))
load_lines-devices host lines c memory =
    (devices lines, devices-Names lines, load_lines_appends host lines c memory)
