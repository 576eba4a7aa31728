-- ===== src/Net/Client/Api/Dispatch.antt =====
-- `on_message` against the bag of subscriptions, and a subscription against the messages after it.
use nirantara.Common.{
  ℕ, ◌+◌, ◌-◌, ◌<◌, ◌≡◌, ◌≢◌, refl, ap, sym, ◌∙◌, subst, true, inl, inr, Option, none, some, List,
  [], ◌∷◌, ◌++◌, if◌then◌else◌, length, length-append, concat, take_all, append-nil, append_assoc,
  Bool-cases, arith,
}
use mathlib.Core.List.{Perm, filter_map}
use mathlib.Core.List.Perm
use mathlib.Core.Option.{none-ne-some}
use native.Mathlib.Decide.{dec_lt}
use nirantara.Common.Text.{Bytes}
use nirantara.Net.Client.{OpenSsl, Objects, ClientContext, SubSlot, max_subscriptions, topic_size}
use nirantara.Net.Client.Mqtt.{
  Mosquitto, Message, Call, call_of, slot_at, dispatch, message_loop, on_message,
}
use nirantara.Net.Client.Api.{new_slot, subscribe}
use nirantara.Net.Client.Api.Slots.{entries, length-entries}
use nirantara.Net.Client.Api.Subscribing.{length-subscribe, subscribe-Subscribes}

abbrev answered : Mosquitto → Message → SubSlot → Option Call
answered m msg slot = if m.matches slot.topic msg.topic then some (call_of msg slot) else none

-- The calls for a message that a bag of subscriptions promises, in its order.
abbrev pub calls_of : Mosquitto → Message → List SubSlot → List Call
calls_of m msg subs = filter_map (answered m msg) subs

-- A round before the others.
abbrev ahead : List Call → List Call × List SubSlot → List Call × List SubSlot
ahead calls (calls', subs) = (concat (calls ∷ calls' ∷ []), subs)

abbrev with_slots : List SubSlot → List Call → List Call × List SubSlot
with_slots subs calls = (calls, subs)

slot_at_middle :
    (front : List SubSlot) (slot : SubSlot) (back : List SubSlot)
    → slot_at (length front) (front ++ slot ∷ back) ≡ some slot
slot_at_middle [] slot back = refl
slot_at_middle (s ∷ front) slot back = slot_at_middle front slot back

module _ (m : Mosquitto) (invoke : Call → List SubSlot → List SubSlot)
    (quiet : (call : Call) (subs : List SubSlot) → invoke call subs ≡ subs) where
  dispatch_quiet :
      (msg : Message) (slot : SubSlot) (back subs : List SubSlot)
      → ((dispatch m invoke msg (some slot) subs).1 ≡ subs)
        × ((dispatch m invoke msg (some slot) subs).0 ++ calls_of m msg (entries back)
            ≡ calls_of m msg (entries (slot ∷ back)))
  unfolding entries filter_map
  dispatch_quiet msg slot back subs = elim (Bool-cases slot.active) [
    | inl e ↦ elim (Bool-cases (m.matches slot.topic msg.topic)) [
      | inl f ↦ rw (e, f) (quiet (call_of msg slot) subs, refl)
      | inr f ↦ rw (e, f) (refl, refl)
    ]
    | inr e ↦ rw e (refl, refl)
  ]

  message_loop_quiet :
      (msg : Message) (front back : List SubSlot)
      → message_loop m invoke msg (length back) (length front) (front ++ back)
        ≡ (calls_of m msg (entries back), front ++ back)
  unfolding message_loop entries filter_map
  message_loop_quiet msg front [] = refl
  message_loop_quiet msg front (slot ∷ back) =
      let subs = front ++ slot ∷ back in
      let (kept, called) = dispatch_quiet msg slot back subs in
      let assoc = append_assoc front (slot ∷ []) back in
      let loop = message_loop m invoke msg (length back) in
      let next : loop (length front + 1) subs ≡ (calls_of m msg (entries back), subs) =
        ap (loop (length front + 1)) (sym assoc)
        ∙ ap (λ i. loop i ((front ++ slot ∷ []) ++ back))
            (omega (arith, length-append front (slot ∷ [])))
        ∙ message_loop_quiet msg (front ++ slot ∷ []) back
        ∙ ap (λ s. with_slots s (calls_of m msg (entries back))) assoc in
      let d = dispatch m invoke msg (some slot) subs in
      ap
        (λ s.
          ahead (dispatch m invoke msg s subs).0
            (loop (length front + 1) (dispatch m invoke msg s subs).1))
        (slot_at_middle front slot back)
      ∙ ap (λ s. ahead d.0 (loop (length front + 1) s)) kept
      ∙ ap (ahead d.0) next
      ∙ ap (with_slots subs) (ap (λ t. d.0 ++ t) (append-nil _) ∙ called)

  -- On a table of 16 slots, with callbacks that leave it alone, a message calls back exactly the
  -- active subscriptions whose topic matches, each once, with its data, in the order of the slots.
  pub on_message-calls_of :
      (msg : Message) (subs : List SubSlot)
      → length subs ≡ max_subscriptions
      → on_message m invoke msg subs ≡ (calls_of m msg (entries subs), subs)
  unfolding on_message
  on_message-calls_of msg subs slots =
      ap (λ n. message_loop m invoke msg n 0 subs) (sym slots) ∙ message_loop_quiet msg [] subs

  calls_of_new :
      (msg : Message) (topic : Bytes) (cb userdata : ℕ) (subs : List SubSlot)
      → length topic < topic_size
      → calls_of m msg (new_slot topic cb userdata ∷ subs)
        ≡ (if m.matches topic msg.topic
            then record { cb = cb; message = msg; userdata = userdata } ∷ []
            else [])
          ++ calls_of m msg subs
  unfolding filter_map
  calls_of_new msg topic cb userdata subs short =
      let whole = take_all (topic_size - 1) topic (omega arith) in
      elim (Bool-cases (m.matches topic msg.topic)) [
        | inl e ↦ rw (whole, e) refl
        | inr e ↦ rw (whole, e) refl
      ]

  calls_of_added :
      (msg : Message) (topic : Bytes) (cb userdata : ℕ) (old new : List SubSlot)
      → length old ≡ max_subscriptions
      → length new ≡ max_subscriptions
      → length topic < topic_size
      → Perm (entries new) (new_slot topic cb userdata ∷ entries old)
      → Perm (on_message m invoke msg new).0 (
          (if m.matches topic msg.topic
            then record { cb = cb; message = msg; userdata = userdata } ∷ []
            else [])
          ++ (on_message m invoke msg old).0)
  calls_of_added msg topic cb userdata old new slots slots' short p =
      rw (on_message-calls_of msg old slots, on_message-calls_of msg new slots')
        (subst (λ t. Perm (calls_of m msg (entries new)) t)
          (calls_of_new msg topic cb userdata (entries old) short)
          (Perm.filter_map (answered m msg) p))

  -- In a connected context with 16 slots, after a subscription that returns NR_OK a message whose
  -- topic matches it calls back this callback with its data beside the calls that the message made
  -- before, and a message that does not match makes the calls as before, in any order; with a topic
  -- of less than 256 bytes and callbacks that leave the table alone.
  pub on_message-subscribe :
      {lib : Objects} (o : OpenSsl lib) (ctx : ClientContext lib) (msg : Message) (topic : Bytes)
      (cb userdata : ℕ)
      → ctx.mqtt_connected ≡ true
      → cb ≢ 0
      → length ctx.subs ≡ max_subscriptions
      → length topic < topic_size
      → (subscribe o m ctx (some topic) cb userdata).0 ≡ none
      → Perm (on_message m invoke msg (subscribe o m ctx (some topic) cb userdata).1.subs).0 (
          (if m.matches topic msg.topic
            then record { cb = cb; message = msg; userdata = userdata } ∷ []
            else [])
          ++ (on_message m invoke msg ctx.subs).0)
  on_message-subscribe o ctx msg topic cb userdata up given slots short fine =
      let ctx' = (subscribe o m ctx (some topic) cb userdata).1 in
      let spec = subscribe-Subscribes o m ctx topic cb userdata up given slots in
      let slots' = length-subscribe o m ctx (some topic) cb userdata ∙ slots in
      elim (dec_lt (length (entries ctx.subs)) max_subscriptions) [
        | yes room ↦ elim (Bool-cases (m.subscribe topic)) [
          | inl e ↦
              calls_of_added msg topic cb userdata ctx.subs ctx'.subs slots slots' short
                (spec.added room e).1
          | inr e ↦ absurd (none-ne-some _ (sym fine ∙ (spec.refused room e).0))
        ]
        | no all_taken ↦
            let most = length-entries ctx.subs in
            absurd (none-ne-some _ (sym fine ∙ (spec.full (omega (arith, slots))).0))
      ]
