-- ===== src/Edge/Sync/DeviceId.antt =====
-- `extract_device_id`: its bound, and its result on the topics that it is meant for.
use nirantara.Common.{
  ℕ, ◌-◌, ◌<◌, ◌≡◌, ◌≢◌, sym, ◌∙◌, ltb→lt, inl, inr, Option, none, some, [], ◌∷◌, ◌++◌, ltb,
  Option-cases, Bool-cases, length, length-take, take, take_all, All, All-take, arith,
}
use nirantara.Common.Text.{Bytes, codes, strchr}
use nirantara.Common.Text.Search.{strchr-append, strchr-lacks, strchr_splits, strchr-none}
use nirantara.Edge.Sync.{extract_device_id, device_at, segment, fit}

abbrev pub Lacks : ℕ → Bytes → Type 0
Lacks b = All (λ c. c ≢ b)

fit-take : (out_len : ℕ) (id : Bytes) → 0 < out_len → fit out_len id ≡ take (out_len - 1) id
fit-take out_len id h = elim (Bool-cases (ltb (length id) out_len)) [
  | inl e ↦
      let short = ltb→lt _ _ e in
      rw e (take_all (length id) id (omega arith) ∙ sym (take_all (out_len - 1) id (omega arith)))
  | inr e ↦ rw e
]

segment-Lacks : (s : Bytes) → Lacks b'/' (segment s (strchr s b'/'))
segment-Lacks s = elim (Option-cases (strchr s b'/')) [
  | inl e ↦ rw e (strchr-none s b'/' e)
  | inr (r, e) ↦ rw e (strchr_splits s b'/' r.0 r.1 e).3
]

module _ (out_len : ℕ) (h : 0 < out_len) where
  take_room : (id : Bytes) → length (take (out_len - 1) id) < out_len
  take_room id = omega (arith, length-take (out_len - 1) id)

  device_at_bounds :
      (r : Option (Bytes × Bytes))
      → (length (device_at out_len r) < out_len) × Lacks b'/' (device_at out_len r)
  device_at_bounds none =
      (take_room (codes "unknown"), All-take _ (out_len - 1) (codes "unknown") (omega arith))
  device_at_bounds (some (_, [])) = (omega arith, tt)
  device_at_bounds (some (_, _ ∷ rest)) =
      rw (fit-take out_len (segment rest (strchr rest b'/')) h)
        (take_room _, All-take _ (out_len - 1) _ (segment-Lacks rest))

-- Whatever the topic, if there is room for a byte, the id and its terminator fit the `out_len` bytes, and the id holds no slash.
extract_device_id_bounds :
    (topic : Bytes) (out_len : ℕ)
    → 0 < out_len
    → (length (extract_device_id topic out_len) < out_len)
      × Lacks b'/' (extract_device_id topic out_len)
unfolding extract_device_id
extract_device_id_bounds topic out_len h = device_at_bounds out_len h (strchr topic b'/')

-- On a topic <prefix>/<device>/<rest>, and on <prefix>/<device>, where neither the prefix nor the
-- device holds a slash, the result is the device, cut to the `out_len - 1` bytes that fit.
pub extract_device_id_segment :
    (prefix device rest : Bytes) (out_len : ℕ)
    → Lacks b'/' prefix
    → Lacks b'/' device
    → 0 < out_len
    → (extract_device_id (prefix ++ b'/' ∷ (device ++ b'/' ∷ rest)) out_len
        ≡ take (out_len - 1) device)
      × (extract_device_id (prefix ++ b'/' ∷ device) out_len ≡ take (out_len - 1) device)
extract_device_id_segment prefix device rest out_len hp hd h =
    unfold extract_device_id in
    (
      rw (strchr-append prefix b'/' _ hp)
          (rw (strchr-append device b'/' rest hd) (fit-take out_len device h)),
      rw (strchr-append prefix b'/' device hp)
          (rw (strchr-lacks device b'/' hd) (fit-take out_len device h)),
    )

-- A topic with no slash counts as the device "unknown", where there is room for that word.
extract_device_id_unknown :
    (topic : Bytes) (out_len : ℕ)
    → Lacks b'/' topic
    → 7 < out_len
    → extract_device_id topic out_len ≡ codes "unknown"
extract_device_id_unknown topic out_len h room =
    unfold extract_device_id in
    rw (strchr-lacks topic b'/' h) (take_all (out_len - 1) (codes "unknown") (omega arith))
