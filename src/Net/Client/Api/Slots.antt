-- ===== src/Net/Client/Api/Slots.antt =====
-- The table of subscriptions as a bag of the active ones.
use nirantara.Common.{
  ℕ, zero, suc, ◌+◌, ◌≤◌, ◌<◌, ◌≡◌, refl, ap, sym, ◌∙◌, subst, true, false, inl, inr, none, some,
  List, [], ◌∷◌, ◌++◌, if◌then◌else◌, length, length-append, All, Bool-cases, arith,
}
use nirantara.Common.Options.{some_eq}
use nirantara.Net.Client.{SubSlot}
use nirantara.Net.Client.Api.{free_slot, set_slot}

-- What stands in the active slots.
unfoldable pub entries : List SubSlot → List SubSlot
entries [] = []
entries (slot ∷ slots) = let rest = entries slots in if slot.active then slot ∷ rest else rest

entries-append : (s t : List SubSlot) → entries (s ++ t) ≡ entries s ++ entries t
unfolding entries
entries-append [] t = refl
entries-append (slot ∷ s) t = elim (Bool-cases slot.active) [
  | inl e ↦ rw (e, entries-append s t) refl
  | inr e ↦ rw (e, entries-append s t) refl
]

pub length-entries : (slots : List SubSlot) → length (entries slots) ≤ length slots
unfolding entries
length-entries [] = omega arith
length-entries (slot ∷ slots) = ground (arith, length-entries slots)

-- The first free slot, with what is around it.
pub record Free (slots : List SubSlot) (i : ℕ) : Type 0 where
  pub front : List SubSlot
  pub slot : SubSlot
  pub back : List SubSlot
  pub parts : slots ≡ front ++ slot ∷ back
  pub at : length front ≡ i
  pub is_free : slot.active ≡ false

free_slot_shift :
    (i : ℕ) (slots : List SubSlot) (k : ℕ)
    → free_slot i slots ≡ some k
    → (n : ℕ) × (k ≡ i + n) × Free slots n
unfolding free_slot
free_slot_shift i [] k h = cc
free_slot_shift i (slot ∷ slots) k h = elim (Bool-cases slot.active) [
  | inl e ↦
      let (n, is_k, free) = free_slot_shift (i + 1) slots k (rw e at h) in
      (
        suc n,
        omega (arith, is_k),
        record {
          front = slot ∷ free.front;
          slot = free.slot;
          back = free.back;
          parts = ap (◌∷◌ slot) free.parts;
          at = ap suc free.at;
          is_free = free.is_free;
        },
      )
  | inr e ↦ (
    0,
    omega (arith, some_eq i k (rw e at h)),
    record { front = []; slot = slot; back = slots; parts = refl; at = refl; is_free = e },
  )
]

pub free_slot-Free : (slots : List SubSlot) (k : ℕ) → free_slot 0 slots ≡ some k → Free slots k
free_slot-Free slots k h =
    let (n, is_k, free) = free_slot_shift 0 slots k h in
    subst (Free slots) (omega (arith, is_k)) free

pub free_slot_full :
    (i : ℕ) (slots : List SubSlot)
    → free_slot i slots ≡ none
    → length (entries slots) ≡ length slots
unfolding free_slot entries
free_slot_full i [] h = refl
free_slot_full i (slot ∷ slots) h = elim (Bool-cases slot.active) [
  | inl e ↦ rw e (ap suc (free_slot_full (i + 1) slots (rw e at h)))
  | inr e ↦ cc
]

pub All-set_slot {κ} :
    (P : SubSlot → Type κ) (i : ℕ) (new : SubSlot) (slots : List SubSlot)
    → All P slots
    → P new
    → All P (set_slot i new slots)
All-set_slot P i new [] h hn = tt
All-set_slot P zero new (slot ∷ slots) h hn = (hn, h.1)
All-set_slot P (suc i) new (slot ∷ slots) h hn = (h.0, All-set_slot P i new slots h.1 hn)

pub length-set_slot :
    (i : ℕ) (new : SubSlot) (slots : List SubSlot) → length (set_slot i new slots) ≡ length slots
length-set_slot i new [] = refl
length-set_slot zero new (slot ∷ slots) = refl
length-set_slot (suc i) new (slot ∷ slots) = ap suc (length-set_slot i new slots)

set_slot_middle :
    (front : List SubSlot) (slot new : SubSlot) (back : List SubSlot)
    → set_slot (length front) new (front ++ slot ∷ back) ≡ front ++ new ∷ back
set_slot_middle [] slot new back = refl
set_slot_middle (s ∷ front) slot new back = ap (◌∷◌ s) (set_slot_middle front slot new back)

pub set_slot-Free :
    (slots : List SubSlot) (k : ℕ) (new : SubSlot) (f : Free slots k)
    → set_slot k new slots ≡ f.front ++ new ∷ f.back
set_slot-Free slots k new f =
    ap (λ i. set_slot i new slots) (sym f.at)
    ∙ ap (set_slot (length f.front) new) f.parts
    ∙ set_slot_middle f.front f.slot new f.back

pub entries_without :
    (front : List SubSlot) (slot : SubSlot) (back : List SubSlot)
    → slot.active ≡ false
    → entries (front ++ slot ∷ back) ≡ entries front ++ entries back
unfolding entries
entries_without front slot back h = entries-append front (slot ∷ back) ∙ rw h refl

pub entries_with :
    (front : List SubSlot) (slot : SubSlot) (back : List SubSlot)
    → slot.active ≡ true
    → entries (front ++ slot ∷ back) ≡ entries front ++ slot ∷ entries back
unfolding entries
entries_with front slot back h = entries-append front (slot ∷ back) ∙ rw h refl

pub entries_fewer :
    (slots : List SubSlot) (k : ℕ) → Free slots k → length (entries slots) < length slots
entries_fewer slots k f = omega (
  arith,
  ap length (ap entries f.parts ∙ entries_without f.front f.slot f.back f.is_free),
  ap length f.parts,
  length-append f.front (f.slot ∷ f.back),
  length-entries f.front,
  length-entries f.back,
  length-append (entries f.front) (entries f.back),
)
