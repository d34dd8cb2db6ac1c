-- ===== src/Mqtt/Subscriptions/RoundTrip.antt =====
-- SUBSCRIBE, SUBACK, UNSUBSCRIBE and UNSUBACK packets come back, but for two flags of a subscription.
use hat_drivers.Base.{
  ℕ, ◌≤◌, ◌≡◌, refl, sym, ap₂, List, [], ◌∷◌, All, true, false, Option, none, some, ok, arith,
}
use hat_drivers.Mqtt.Common.{
  Text, QoS, at_most_once, at_least_once, exactly_once, qos_value, to_qos, RetainHandling,
  send_on_subscribe, retain_handling_value, to_retain_handling, Subscription, Reason,
}
use hat_drivers.Mqtt.Primitives.{encode_string, decode_string}
use hat_drivers.Mqtt.Primitives.RoundTrip.{Reads, uint16-Reads, text-Reads, IsText}
use hat_drivers.Mqtt.Primitives.Sequence.{
  Whole, Item, Reads-Item, then-Reads, then-Whole, all-Whole,
}
use hat_drivers.Mqtt.Properties.{property_value, same_type, mentions}
use hat_drivers.Mqtt.Properties.RoundTrip.{
  Writable, is_listed, lacks, lookup, props-Reads, get-collect,
}
use hat_drivers.Mqtt.Fields.{
  as_text-optional_text, as_pairs-nonempty_pairs, reason-Reads, is_empty, instead,
}
use hat_drivers.Mqtt.Packet.{SubscribePacket, SubAckPacket, UnsubscribePacket, UnsubAckPacket}
use hat_drivers.Mqtt.Fields.{as_identifiers, encode_reason, decode_reason}
use hat_drivers.Mqtt.Subscriptions.{
  subscription_byte, encode_subscription, decode_subscription, one_identifier, only_identifier,
}
use hat_drivers.Mqtt.Subscriptions.{
  subscribe_types, subscribe_options, encode_subscribe_packet, decode_subscribe_packet,
}
use hat_drivers.Mqtt.Subscriptions.{
  reasons_types, suback_options, encode_suback_packet, decode_suback_packet,
}
use hat_drivers.Mqtt.Subscriptions.{
  unsuback_options, encode_unsuback_packet, decode_unsuback_packet,
}
use hat_drivers.Mqtt.Subscriptions.{
  unsubscribe_types, unsubscribe_options, encode_unsubscribe_packet, decode_unsubscribe_packet,
}
use hat_drivers.Mqtt.Primitives.{decode_uint8, decode_uint16}
use hat_drivers.Base.{bit_and, ◌==◌, ◌/◌, ◌^◌}

all_reasons : (reasons : List Reason) → All (Item encode_reason decode_reason) reasons
unfolding decode_reason
all_reasons [] = tt
all_reasons (r ∷ reasons) =
    (Reads-Item encode_reason decode_reason r refl (reason-Reads r), all_reasons reasons)

pub suback-Whole :
    (p : SubAckPacket)
    → p.packet_identifier ≤ 0xffff
    → Writable (suback_options p)
    → is_empty p.reasons ≡ false
    → Whole (encode_suback_packet p) decode_suback_packet p
unfolding encode_suback_packet decode_suback_packet is_listed lacks lookup mentions same_type
    property_value
suback-Whole p h k e = then-Whole _ (uint16-Reads p.packet_identifier h) (
    then-Whole _ (props-Reads reasons_types (suback_options p) refl k) (
      rw
        (
          get-collect reasons_types (suback_options p) refl,
          as_text-optional_text p.reason_string,
          as_pairs-nonempty_pairs p.user_properties,
        )
        (rw e
          (all-Whole encode_reason decode_reason p.reasons _ (all_reasons p.reasons) (rw e refl)))))

pub unsuback-Whole :
    (p : UnsubAckPacket)
    → p.packet_identifier ≤ 0xffff
    → Writable (unsuback_options p)
    → is_empty p.reasons ≡ false
    → Whole (encode_unsuback_packet p) decode_unsuback_packet p
unfolding encode_unsuback_packet decode_unsuback_packet is_listed lacks lookup mentions same_type
    property_value
unsuback-Whole p h k e = then-Whole _ (uint16-Reads p.packet_identifier h) (
    then-Whole _ (props-Reads reasons_types (unsuback_options p) refl k) (
      rw
        (
          get-collect reasons_types (unsuback_options p) refl,
          as_text-optional_text p.reason_string,
          as_pairs-nonempty_pairs p.user_properties,
        )
        (rw e
          (all-Whole encode_reason decode_reason p.reasons _ (all_reasons p.reasons) (rw e refl)))))

topics :
    (topic_filters : List Text)
    → All IsText topic_filters
    → All (Item encode_string decode_string) topic_filters
unfolding decode_string decode_uint16
topics [] hs = tt
topics (s ∷ topic_filters) (h, hs) =
    (Reads-Item encode_string decode_string s refl (text-Reads s h), topics topic_filters hs)

pub unsubscribe-Whole :
    (p : UnsubscribePacket)
    → p.packet_identifier ≤ 0xffff
    → Writable (unsubscribe_options p)
    → is_empty p.topic_filters ≡ false
    → All IsText p.topic_filters
    → Whole (encode_unsubscribe_packet p) decode_unsubscribe_packet p
unfolding encode_unsubscribe_packet decode_unsubscribe_packet is_listed lacks lookup mentions
    same_type property_value
unsubscribe-Whole p h k e hs = then-Whole _ (uint16-Reads p.packet_identifier h) (
    then-Whole _ (props-Reads unsubscribe_types (unsubscribe_options p) refl k) (
      rw
        (
          get-collect unsubscribe_types (unsubscribe_options p) refl,
          as_pairs-nonempty_pairs p.user_properties,
        )
        (rw e (
          all-Whole encode_string decode_string p.topic_filters _ (topics p.topic_filters hs)
            (rw e refl)))))

-- The byte of a subscription without the two flags
byte-reads :
    (q : QoS) (r : RetainHandling)
    → let b = subscription_byte q false false r in
      (b ≤ 255)
      × (to_qos (bit_and b 0x03) ≡ ok q)
      × (to_retain_handling (bit_and (b / 2 ^ 4) 0x03) ≡ ok r)
      × ((bit_and b 0x04 == 0) ≡ true)
      × ((bit_and b 0x08 == 0) ≡ true)
unfolding subscription_byte qos_value retain_handling_value to_qos to_retain_handling
byte-reads at_most_once send_on_subscribe = (omega arith, refl, refl, refl, refl)
byte-reads at_most_once _ = (omega arith, refl, refl, refl, refl)
byte-reads at_least_once send_on_subscribe = (omega arith, refl, refl, refl, refl)
byte-reads at_least_once _ = (omega arith, refl, refl, refl, refl)
byte-reads exactly_once send_on_subscribe = (omega arith, refl, refl, refl, refl)
byte-reads exactly_once _ = (omega arith, refl, refl, refl, refl)

-- Neither `no_local` nor `retain_as_published`, whose bits the encoder and the decoder take differently
abbrev pub IsSubscription : Subscription → Type 0
IsSubscription s = IsText s.topic_filter × (s.no_local ≡ false) × (s.retain_as_published ≡ false)

subscription-Reads :
    (s : Subscription) → IsSubscription s → Reads (encode_subscription s) decode_subscription s
unfolding encode_subscription decode_subscription decode_uint8 instead
subscription-Reads s h =
    let t = text-Reads s.topic_filter h.0 in
    let e = byte-reads s.maximum_qos s.retain_handling in
    let b = subscription_byte s.maximum_qos false false s.retain_handling in
    let byte = subscription_byte s.maximum_qos s.no_local s.retain_as_published s.retain_handling in
    then-Reads {w' = ok (byte ∷ [])} _ t (record {
      image = b ∷ [];
      writes = simp (h.1, h.2) refl;
      reads = λ rest.
          simp (e.1, e.2, e.3, e.4)
            (ap₂ (λ a b. ok (record s { no_local = a; retain_as_published = b }, rest)) (sym h.1)
              (sym h.2));
      are_bytes = (omega (arith, e.0), tt);
    })

subscriptions_lem :
    (subscriptions : List Subscription)
    → All IsSubscription subscriptions
    → All (Item encode_subscription decode_subscription) subscriptions
unfolding decode_subscription decode_string decode_uint16
subscriptions_lem [] hs = tt
subscriptions_lem (s ∷ subscriptions) (h, hs) = (
  Reads-Item encode_subscription decode_subscription s refl (subscription-Reads s h),
  subscriptions_lem subscriptions hs,
)

only_identifier-one_identifier :
    (o : Option ℕ) → only_identifier (as_identifiers (one_identifier o)) ≡ ok o
unfolding only_identifier as_identifiers one_identifier
only_identifier-one_identifier none = refl
only_identifier-one_identifier (some i) = refl

pub subscribe-Whole :
    (p : SubscribePacket)
    → p.packet_identifier ≤ 0xffff
    → Writable (subscribe_options p)
    → is_empty p.subscriptions ≡ false
    → All IsSubscription p.subscriptions
    → Whole (encode_subscribe_packet p) decode_subscribe_packet p
unfolding encode_subscribe_packet decode_subscribe_packet is_listed lacks lookup mentions same_type
    property_value
subscribe-Whole p h k e hs = then-Whole _ (uint16-Reads p.packet_identifier h) (
    then-Whole _ (props-Reads subscribe_types (subscribe_options p) refl k) (
      rw
        (
          get-collect subscribe_types (subscribe_options p) refl,
          as_pairs-nonempty_pairs p.user_properties,
          only_identifier-one_identifier p.subscription_identifier,
        )
        (rw e (
          all-Whole encode_subscription decode_subscription p.subscriptions _
            (subscriptions_lem p.subscriptions hs) (rw e refl)))))
