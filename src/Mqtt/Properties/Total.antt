-- ===== src/Mqtt/Properties/Total.antt =====
-- `_decode_props` ends on all data.
use hat_drivers.Base.{
  ℕ, zero, suc, ◌≤◌, ◌≢◌, arith, List, [], ◌∷◌, length, take, drop, length-take, length-drop,
}
use hat_drivers.Base.{not, ◌==◌, ◌&&◌, ok, err, guard, stuck, Result-cases, inl, inr}
use hat_drivers.Base.{
  true, false, mqtt_malformed_packet, mqtt_protocol_error, >>=-ne-stuck, known, refused,
}
use hat_drivers.Mqtt.Primitives.{
  decode_uint8, decode_uint16, decode_uint32, decode_uintvar, decode_binary, decode_string,
}
use hat_drivers.Mqtt.Primitives.Drains.{
  Drains, ok-Drains, then-Drains, step-Drains, guard-Drains, zero-Drains, malformed-ne-stuck,
  protocol-ne-stuck,
}
use hat_drivers.Mqtt.Primitives.Drains.{
  uint8-Drains, uint16-Drains, uint32-Drains, uintvar-Drains, binary-Drains, string-Drains,
}
use hat_drivers.Mqtt.Properties.{
  PropertyType, Kind, kind, Props, to_property, mentions, has, is_repeated, add_prop,
}
use hat_drivers.Mqtt.Properties.{
  flag_kind, uint16_kind, positive16_kind, uint32_kind, positive32_kind,
}
use hat_drivers.Mqtt.Properties.{string_kind, binary_kind, identifiers_kind, qos_kind, pairs_kind}
use hat_drivers.Mqtt.Properties.{decode_maximum_qos, decode_value, decode_entries, decode_props}

pub whole-Drains {ℓ} : {A : Type ℓ} (a : A) (rest : List ℕ) → Drains 0 rest (ok (a, rest))
whole-Drains a rest = ok-Drains 0 rest a rest (omega arith)

decode_maximum_qos-ne-stuck : (n : ℕ) → decode_maximum_qos n ≢ err stuck
unfolding decode_maximum_qos
decode_maximum_qos-ne-stuck n = known (n == 0) _ (known (n == 1) _ (refused _ protocol-ne-stuck))

decode_value-Drains : (k : Kind) (bs : List ℕ) → Drains 1 bs (decode_value k bs)
unfolding decode_value
decode_value-Drains flag_kind bs =
    then-Drains (decode_uint8 bs) _ (uint8-Drains bs)
      (λ n rest. guard-Drains _ mqtt_protocol_error protocol-ne-stuck (whole-Drains _ rest))
decode_value-Drains uint16_kind bs =
    then-Drains (decode_uint16 bs) _ (uint16-Drains bs) (λ n rest. whole-Drains _ rest)
decode_value-Drains positive16_kind bs =
    then-Drains (decode_uint16 bs) _ (uint16-Drains bs)
      (λ n rest. guard-Drains _ mqtt_protocol_error protocol-ne-stuck (whole-Drains _ rest))
decode_value-Drains uint32_kind bs =
    then-Drains (decode_uint32 bs) _ (uint32-Drains bs) (λ n rest. whole-Drains _ rest)
decode_value-Drains positive32_kind bs =
    then-Drains (decode_uint32 bs) _ (uint32-Drains bs)
      (λ n rest. guard-Drains _ mqtt_protocol_error protocol-ne-stuck (whole-Drains _ rest))
decode_value-Drains string_kind bs =
    then-Drains (decode_string bs) _ (string-Drains bs) (λ n rest. whole-Drains _ rest)
decode_value-Drains binary_kind bs =
    then-Drains (decode_binary bs) _ (binary-Drains bs) (λ n rest. whole-Drains _ rest)
decode_value-Drains identifiers_kind bs =
    then-Drains (decode_uintvar bs) _ (uintvar-Drains bs)
      (λ n rest. guard-Drains _ mqtt_protocol_error protocol-ne-stuck (whole-Drains _ rest))
decode_value-Drains qos_kind bs = then-Drains (decode_uint8 bs) _ (uint8-Drains bs) (λ n rest.
    step-Drains (decode_maximum_qos n) _ (decode_maximum_qos-ne-stuck n) (λ q. whole-Drains _ rest))
decode_value-Drains pairs_kind bs = then-Drains (decode_string bs) _ (string-Drains bs) (λ n rest.
    then-Drains (decode_string rest) _ (zero-Drains 1 (string-Drains rest))
      (λ v rest'. whole-Drains _ rest'))

to_property-ne-stuck : (v : ℕ) → to_property v ≢ err stuck
unfolding to_property
to_property-ne-stuck v = known (v == 1) _ (
    known (v == 2) _ (
      known (v == 3) _ (
        known (v == 8) _ (
          known (v == 9) _ (
            known (v == 11) _ (
              known (v == 17) _ (
                known (v == 18) _ (
                  known (v == 19) _ (
                    known (v == 21) _ (
                      known (v == 22) _ (
                        known (v == 23) _ (
                          known (v == 24) _ (
                            known (v == 25) _ (
                              known (v == 26) _ (
                                known (v == 28) _ (
                                  known (v == 31) _ (
                                    known (v == 33) _ (
                                      known (v == 34) _ (
                                        known (v == 35) _ (
                                          known (v == 36) _ (
                                            known (v == 37) _ (
                                              known (v == 38) _ (
                                                known (v == 39) _ (
                                                  known (v == 40) _ (
                                                    known (v == 41) _ (
                                                      known (v == 42) _ (
                                                        refused _
                                                          malformed-ne-stuck)))))))))))))))))))))))))))

guard-ne-stuck : (b : _) → guard b mqtt_protocol_error ≢ err stuck
guard-ne-stuck true e = cc
guard-ne-stuck false e = cc

decode_entries-ne-stuck :
    (fuel : ℕ) (valid : List PropertyType) (props : Props) (bs : List ℕ)
    → length bs ≤ fuel
    → decode_entries fuel valid props bs ≢ err stuck
unfolding decode_entries
decode_entries-ne-stuck fuel valid props [] h = λ e. cc
decode_entries-ne-stuck zero valid props (b ∷ bs) h = absurd (omega arith)
decode_entries-ne-stuck (suc fuel) valid props (b ∷ bs) h =
    elim (Result-cases (decode_uintvar (b ∷ bs))) [
      | inr (x, r) ↦ rw (r) (λ e. (uintvar-Drains (b ∷ bs)).ends (cc))
      | inl ((code, rest), r) ↦ rw (r) (
          >>=-ne-stuck (to_property code) _ (to_property-ne-stuck code) (λ t.
            >>=-ne-stuck (guard (mentions t valid) mqtt_protocol_error) _ (guard-ne-stuck _) (λ u.
              >>=-ne-stuck
                (guard (not (has props t && not (is_repeated (kind t)))) mqtt_protocol_error) _
                (guard-ne-stuck _)
                (λ u. elim (Result-cases (decode_value (kind t) rest)) [
                  | inr (x, q) ↦ rw (q) (λ e. (decode_value-Drains (kind t) rest).ends (cc))
                  | inl ((v, rest'), q) ↦ rw (q) (
                      decode_entries-ne-stuck fuel valid (add_prop t v props) rest' (
                        omega (
                          arith,
                          h,
                          (uintvar-Drains (b ∷ bs)).takes code rest r,
                          (decode_value-Drains (kind t) rest).takes v rest' q,
                        )))
                ]))))
    ]

pub props-Drains : (valid : List PropertyType) (bs : List ℕ) → Drains 1 bs (decode_props valid bs)
unfolding decode_props
props-Drains valid bs = then-Drains (decode_uintvar bs) _ (uintvar-Drains bs) (λ n rest.
    guard-Drains _ mqtt_malformed_packet malformed-ne-stuck (
      step-Drains (decode_entries n valid [] (take n rest)) _
        (decode_entries-ne-stuck n valid [] (take n rest) (omega (arith, length-take {0} n rest)))
        (λ props. ok-Drains 0 rest props (drop n rest) (omega (arith, length-drop {0} n rest)))))
