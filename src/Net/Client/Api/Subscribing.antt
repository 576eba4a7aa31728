-- ===== src/Net/Client/Api/Subscribing.antt =====
-- `nr_subscribe` against the bag of subscriptions.
use nirantara.Common.{
  if-cases, ℕ, ◌<◌, ◌≡◌, ◌≢◌, refl, ap, sym, ◌∙◌, subst, Bool, true, false, not, inl, inr, Option,
  none, some, List, ◌∷◌, ◌++◌, ◌==◌, length, Bool-cases, Option-cases, arith,
}
use mathlib.Core.List.{Perm, perm_middle}
use nirantara.Common.Text.{Bytes}
use nirantara.Net.Enroll.{err_param, err_mqtt}
use nirantara.Net.Client.{Code, OpenSsl, Objects, ClientContext, SubSlot, max_subscriptions}
use nirantara.Net.Client.Mqtt.{Mosquitto}
use nirantara.Net.Client.Api.{free_slot, new_slot, deactivated, subscribe, subscribe_in}
use nirantara.Net.Client.Api.Slots.{
  entries, Free, free_slot-Free, free_slot_full, length-set_slot, set_slot-Free, entries_without,
  entries_with, entries_fewer,
}

-- What a call of `nr_subscribe` does to the bag of subscriptions, by whether there is room and whether
-- the broker takes the subscription.
pub record Subscribes (lib : Objects) (old : List SubSlot) (entry : SubSlot) (accepts : Bool)
    (r : Code × ClientContext lib) : Type 0 where
  pub full :
      length (entries old) ≡ max_subscriptions
      → (r.0 ≡ some err_param) × (entries r.1.subs ≡ entries old)
  pub refused :
      length (entries old) < max_subscriptions
      → accepts ≡ false
      → (r.0 ≡ some err_mqtt) × (entries r.1.subs ≡ entries old)
  pub added :
      length (entries old) < max_subscriptions
      → accepts ≡ true
      → (r.0 ≡ none) × Perm (entries r.1.subs) (entry ∷ entries old)

module _ {lib : Objects} (o : OpenSsl lib) (m : Mosquitto) where
  subscribe_eq :
      (ctx : ClientContext lib) (topic : Bytes) (cb userdata : ℕ)
      → ctx.mqtt_connected ≡ true
      → cb ≢ 0
      → subscribe_in o m ctx topic cb userdata (free_slot 0 ctx.subs)
        ≡ subscribe o m ctx (some topic) cb userdata
  unfolding subscribe
  subscribe_eq ctx topic cb userdata up given =
      let has_cb : (cb == 0) ≡ false = ground arith in rw (has_cb, up) refl

  subscribe_in-Subscribes :
      (ctx : ClientContext lib) (topic : Bytes) (cb userdata : ℕ) (k : ℕ)
      → length ctx.subs ≡ max_subscriptions
      → Free ctx.subs k
      → Subscribes lib ctx.subs
          (new_slot topic cb userdata)
          (m.subscribe topic)
          (subscribe_in o m ctx topic cb userdata (some k))
  subscribe_in-Subscribes ctx topic cb userdata k slots f =
      let new = new_slot topic cb userdata in
      let old = ap entries f.parts ∙ entries_without f.front f.slot f.back f.is_free in
      let room = entries_fewer ctx.subs k f in
      let without =
        ap entries (set_slot-Free ctx.subs k (deactivated new) f)
        ∙ entries_without f.front (deactivated new) f.back refl
        ∙ sym old in
      let with_new =
        ap entries (set_slot-Free ctx.subs k new f) ∙ entries_with f.front new f.back refl in
      record {
        full = λ h. absurd (omega (arith, room));
        refused = λ h a. rw a (refl, without);
        added = λ h a. rw a (
          refl,
          subst (λ t. Perm t (new ∷ entries ctx.subs)) (sym with_new)
              (subst (λ t. Perm (entries f.front ++ new ∷ entries f.back) (new ∷ t)) (sym old)
                (perm_middle (entries f.front) (entries f.back))),
        );
      }

  -- On a table of 16 slots in a connected context, `nr_subscribe` with a callback does what the bag of
  -- subscriptions promises: with 16 of them it is refused with NR_ERR_PARAM, and otherwise, if the
  -- broker refuses, the bag stays and NR_ERR_MQTT is returned, and if not, the topic, cut to 255
  -- bytes, is added to it with the callback and its data.
  pub subscribe-Subscribes :
      (ctx : ClientContext lib) (topic : Bytes) (cb userdata : ℕ)
      → ctx.mqtt_connected ≡ true
      → cb ≢ 0
      → length ctx.subs ≡ max_subscriptions
      → Subscribes lib ctx.subs
          (new_slot topic cb userdata)
          (m.subscribe topic)
          (subscribe o m ctx (some topic) cb userdata)
  subscribe-Subscribes ctx topic cb userdata up given slots =
      subst (Subscribes lib ctx.subs (new_slot topic cb userdata) (m.subscribe topic))
        (subscribe_eq ctx topic cb userdata up given)
        (elim (Option-cases (free_slot 0 ctx.subs)) [
          | inl e ↦
              let all_taken = free_slot_full 0 ctx.subs e in
              rw e (record {
                full = λ h. (refl, refl);
                refused = λ h a. absurd (omega (arith, all_taken));
                added = λ h a. absurd (omega (arith, all_taken));
              })
          | inr (k, e) ↦
              rw e (
                subscribe_in-Subscribes ctx topic cb userdata k slots (free_slot-Free ctx.subs k e))
        ])

  length-subscribe_in :
      (ctx : ClientContext lib) (topic : Bytes) (cb userdata : ℕ) (free : Option ℕ)
      → length (subscribe_in o m ctx topic cb userdata free).1.subs ≡ length ctx.subs
  length-subscribe_in ctx topic cb userdata none = refl
  length-subscribe_in ctx topic cb userdata (some k) = elim (Bool-cases (m.subscribe topic)) [
    | inl e ↦ rw e (length-set_slot k (new_slot topic cb userdata) ctx.subs)
    | inr e ↦ rw e (length-set_slot k (deactivated (new_slot topic cb userdata)) ctx.subs)
  ]

  pub length-subscribe :
      (ctx : ClientContext lib) (topic : Option Bytes) (cb userdata : ℕ)
      → length (subscribe o m ctx topic cb userdata).1.subs ≡ length ctx.subs
  unfolding subscribe
  length-subscribe ctx none cb userdata = refl
  length-subscribe ctx (some topic) cb userdata =
      let Keeps = λ (r : Code × ClientContext lib). length r.1.subs ≡ length ctx.subs in
      if-cases Keeps (cb == 0) (λ _. refl)
        (λ _.
          if-cases Keeps (not ctx.mqtt_connected) (λ _. refl)
            (λ _. length-subscribe_in ctx topic cb userdata (free_slot 0 ctx.subs)))
