-- ===== src/Mqtt/Properties.antt =====
-- Properties in src_py/hat/drivers/mqtt/transport/encoder.py: a dictionary from types to values, which
-- keeps the order of insertion.
pub mod Steps
pub mod Entry
pub mod Repeated
pub mod RoundTrip
pub mod Total
use hat_drivers.Base.{
  ℕ, zero, suc, List, [], ◌∷◌, ◌++◌, length, take, drop, Bool, true, false, not, ltb, ◌==◌,
}
use hat_drivers.Base.{
  ◌&&◌, ◌||◌, if◌then◌else◌, Option, none, some, Result, ok, err, ◌>>=◌, ◌>>◌, guard,
}
use hat_drivers.Base.{plain, type_error, stuck, mqtt_malformed_packet, mqtt_protocol_error}
use hat_drivers.Mqtt.Common.{Text, QoS, at_most_once, at_least_once, exactly_once, qos_value}
use hat_drivers.Mqtt.Primitives.{encode_uint8, decode_uint8, encode_uint16, decode_uint16}
use hat_drivers.Mqtt.Primitives.{encode_uint32, decode_uint32, encode_uintvar, decode_uintvar}
use hat_drivers.Mqtt.Primitives.{encode_binary, decode_binary, encode_string, decode_string}

pub data PropertyType : Type 0 where
  payload_format_indicator message_expiry_interval content_type response_topic : PropertyType
  correlation_data subscription_identifier session_expiry_interval : PropertyType
  assigned_client_identifier server_keep_alive authentication_method : PropertyType
  authentication_data request_problem_information will_delay_interval : PropertyType
  request_response_information response_information server_reference : PropertyType
  reason_string receive_maximum topic_alias_maximum topic_alias maximum_qos : PropertyType
  retain_available user_property maximum_packet_size : PropertyType
  wildcard_subscription_available subscription_identifier_available : PropertyType
  shared_subscription_available : PropertyType

unfoldable pub property_value : PropertyType → ℕ
property_value payload_format_indicator = 1
property_value message_expiry_interval = 2
property_value content_type = 3
property_value response_topic = 8
property_value correlation_data = 9
property_value subscription_identifier = 11
property_value session_expiry_interval = 17
property_value assigned_client_identifier = 18
property_value server_keep_alive = 19
property_value authentication_method = 21
property_value authentication_data = 22
property_value request_problem_information = 23
property_value will_delay_interval = 24
property_value request_response_information = 25
property_value response_information = 26
property_value server_reference = 28
property_value reason_string = 31
property_value receive_maximum = 33
property_value topic_alias_maximum = 34
property_value topic_alias = 35
property_value maximum_qos = 36
property_value retain_available = 37
property_value user_property = 38
property_value maximum_packet_size = 39
property_value wildcard_subscription_available = 40
property_value subscription_identifier_available = 41
property_value shared_subscription_available = 42

-- `_PropertyType(value)`, whose `ValueError` becomes an `MqttError`
unfoldable pub to_property : ℕ → Result PropertyType
to_property v =
    if v == 1
    then ok payload_format_indicator
    else if v == 2
    then ok message_expiry_interval
    else if v == 3
    then ok content_type
    else if v == 8
    then ok response_topic
    else if v == 9
    then ok correlation_data
    else if v == 11
    then ok subscription_identifier
    else if v == 17
    then ok session_expiry_interval
    else if v == 18
    then ok assigned_client_identifier
    else if v == 19
    then ok server_keep_alive
    else if v == 21
    then ok authentication_method
    else if v == 22
    then ok authentication_data
    else if v == 23
    then ok request_problem_information
    else if v == 24
    then ok will_delay_interval
    else if v == 25
    then ok request_response_information
    else if v == 26
    then ok response_information
    else if v == 28
    then ok server_reference
    else if v == 31
    then ok reason_string
    else if v == 33
    then ok receive_maximum
    else if v == 34
    then ok topic_alias_maximum
    else if v == 35
    then ok topic_alias
    else if v == 36
    then ok maximum_qos
    else if v == 37
    then ok retain_available
    else if v == 38
    then ok user_property
    else if v == 39
    then ok maximum_packet_size
    else if v == 40
    then ok wildcard_subscription_available
    else if v == 41
    then ok subscription_identifier_available
    else if v == 42
    then ok shared_subscription_available
    else err mqtt_malformed_packet

-- The branches of `_encode_props` and `_decode_props` that are alike
pub data Kind : Type 0 where
  flag_kind uint16_kind positive16_kind uint32_kind positive32_kind string_kind binary_kind : Kind
  identifiers_kind qos_kind pairs_kind : Kind

unfoldable pub kind : PropertyType → Kind
kind payload_format_indicator = flag_kind
kind message_expiry_interval = uint32_kind
kind content_type = string_kind
kind response_topic = string_kind
kind correlation_data = binary_kind
kind subscription_identifier = identifiers_kind
kind session_expiry_interval = uint32_kind
kind assigned_client_identifier = string_kind
kind server_keep_alive = uint16_kind
kind authentication_method = string_kind
kind authentication_data = binary_kind
kind request_problem_information = flag_kind
kind will_delay_interval = uint32_kind
kind request_response_information = flag_kind
kind response_information = string_kind
kind server_reference = string_kind
kind reason_string = string_kind
kind receive_maximum = positive16_kind
kind topic_alias_maximum = uint16_kind
kind topic_alias = uint16_kind
kind maximum_qos = qos_kind
kind retain_available = flag_kind
kind user_property = pairs_kind
kind maximum_packet_size = positive32_kind
kind wildcard_subscription_available = flag_kind
kind subscription_identifier_available = flag_kind
kind shared_subscription_available = flag_kind

pub data Value : Type 0 where
  number : ℕ → Value
  text : Text → Value
  binary : List ℕ → Value
  quality : QoS → Value
  identifiers : List ℕ → Value
  text_pairs : List (Text × Text) → Value

abbrev pub Props : Type 0
Props = List (PropertyType × Value)

unfoldable pub is_exactly_once : QoS → Bool
is_exactly_once exactly_once = true
is_exactly_once _ = false

-- `props` of an encoder, in the order of its tests: a property that its test leaves out is `none`.
abbrev pub Options : Type 0
Options = List (PropertyType × Option Value)

unfoldable pub collect : Options → Props
collect [] = []
collect ((t, none) ∷ options) = collect options
collect ((t, some v) ∷ options) = (t, v) ∷ collect options

-- The value behind the type; the other values are of no property of that kind.
unfoldable pub encode_value : Kind → Value → Result (List ℕ)
unfolding is_exactly_once
encode_value flag_kind (number n) = do guard (n == 0 || n == 1) plain; encode_uint8 n
encode_value uint16_kind (number n) = encode_uint16 n
encode_value positive16_kind (number n) = do guard (not (n == 0)) plain; encode_uint16 n
encode_value uint32_kind (number n) = encode_uint32 n
encode_value positive32_kind (number n) = do guard (not (n == 0)) plain; encode_uint32 n
encode_value string_kind (text s) = encode_string s
encode_value binary_kind (binary bs) = encode_binary bs
encode_value qos_kind (quality q) = do
  guard (not (is_exactly_once q)) plain
  encode_uint8 (qos_value q)
encode_value _ _ = err type_error

unfoldable pub encode_identifiers : ℕ → List ℕ → Result (List ℕ)
encode_identifiers code [] = ok []
encode_identifiers code (i ∷ is) = do
  guard (not (i == 0)) plain
  head ← encode_uintvar code
  body ← encode_uintvar i
  rest ← encode_identifiers code is
  ok (head ++ (body ++ rest))

unfoldable pub encode_pairs : ℕ → List (Text × Text) → Result (List ℕ)
encode_pairs code [] = ok []
encode_pairs code ((k, v) ∷ pairs) = do
  head ← encode_uintvar code
  key ← encode_string k
  value ← encode_string v
  rest ← encode_pairs code pairs
  ok (head ++ (key ++ (value ++ rest)))

unfoldable pub encode_single : ℕ → Kind → Value → Result (List ℕ)
unfolding encode_value
encode_single code k v = do head ← encode_uintvar code; body ← encode_value k v; ok (head ++ body)

unfoldable pub encode_prop : ℕ → Kind → Value → Result (List ℕ)
unfolding encode_single encode_identifiers encode_pairs
encode_prop code identifiers_kind (identifiers is) = encode_identifiers code is
encode_prop code pairs_kind (text_pairs pairs) = encode_pairs code pairs
encode_prop code k v = encode_single code k v

-- The loop of `_encode_props`
unfoldable pub encode_entries : Props → Result (List ℕ)
unfolding encode_prop property_value kind
encode_entries [] = ok []
encode_entries ((t, v) ∷ props) = do
  bs ← encode_prop (property_value t) (kind t) v
  rest ← encode_entries props
  ok (bs ++ rest)

unfoldable pub encode_props : Props → Result (List ℕ)
encode_props props = do
  props_bytes ← encode_entries props
  size ← encode_uintvar (length props_bytes)
  ok (size ++ props_bytes)

-- `common.QoS(prop)`, whose `ValueError` becomes an `MqttError`, and the test behind it
unfoldable pub decode_maximum_qos : ℕ → Result QoS
decode_maximum_qos n =
    if n == 0 then ok at_most_once else if n == 1 then ok at_least_once else err mqtt_protocol_error

unfoldable pub decode_value : Kind → List ℕ → Result (Value × List ℕ)
unfolding decode_maximum_qos
decode_value flag_kind bs = do
  (n, rest) ← decode_uint8 bs
  guard (n == 0 || n == 1) mqtt_protocol_error
  ok (number n, rest)
decode_value uint16_kind bs = do (n, rest) ← decode_uint16 bs; ok (number n, rest)
decode_value positive16_kind bs = do
  (n, rest) ← decode_uint16 bs
  guard (not (n == 0)) mqtt_protocol_error
  ok (number n, rest)
decode_value uint32_kind bs = do (n, rest) ← decode_uint32 bs; ok (number n, rest)
decode_value positive32_kind bs = do
  (n, rest) ← decode_uint32 bs
  guard (not (n == 0)) mqtt_protocol_error
  ok (number n, rest)
decode_value string_kind bs = do (s, rest) ← decode_string bs; ok (text s, rest)
decode_value binary_kind bs = do (b, rest) ← decode_binary bs; ok (binary b, rest)
decode_value identifiers_kind bs = do
  (n, rest) ← decode_uintvar bs
  guard (not (n == 0)) mqtt_protocol_error
  ok (identifiers (n ∷ []), rest)
decode_value qos_kind bs = do
  (n, rest) ← decode_uint8 bs
  q ← decode_maximum_qos n
  ok (quality q, rest)
decode_value pairs_kind bs = do
  (k, rest) ← decode_string bs
  (v, rest') ← decode_string rest
  ok (text_pairs ((k, v) ∷ []), rest')

unfoldable pub same_type : PropertyType → PropertyType → Bool
unfolding property_value
same_type t u = property_value t == property_value u

unfoldable pub mentions : PropertyType → List PropertyType → Bool
unfolding same_type
mentions t [] = false
mentions t (u ∷ types) = same_type t u || mentions t types

-- `props.get(t)`
unfoldable pub get : Props → PropertyType → Option Value
unfolding same_type
get [] t = none
get ((u, v) ∷ props) t = let more = get props t in if same_type t u then some v else more

unfoldable pub has : Props → PropertyType → Bool
unfolding same_type
has [] t = false
has ((u, v) ∷ props) t = same_type t u || has props t

-- A value joins the values that a property already has, or takes the place of the value.
unfoldable pub join : Value → Value → Value
join (identifiers is) (identifiers js) = identifiers (is ++ js)
join (text_pairs ps) (text_pairs qs) = text_pairs (ps ++ qs)
join v w = w

unfoldable pub add_prop : PropertyType → Value → Props → Props
unfolding same_type join
add_prop t v [] = (t, v) ∷ []
add_prop t v ((u, w) ∷ props) =
    let more = add_prop t v props in if same_type t u then (u, join w v) ∷ props else (u, w) ∷ more

unfoldable pub is_repeated : Kind → Bool
is_repeated identifiers_kind = true
is_repeated pairs_kind = true
is_repeated _ = false

-- The loop of `_decode_props`; each round takes a byte at least.
unfoldable pub decode_entries : ℕ → List PropertyType → Props → List ℕ → Result Props
unfolding mentions has add_prop is_repeated kind
decode_entries fuel valid props [] = ok props
decode_entries zero valid props (b ∷ bs) = err stuck
decode_entries (suc fuel) valid props (b ∷ bs) = do
  (code, rest) ← decode_uintvar (b ∷ bs)
  t ← to_property code
  guard (mentions t valid) mqtt_protocol_error
  guard (not (has props t && not (is_repeated (kind t)))) mqtt_protocol_error
  (v, rest') ← decode_value (kind t) rest
  decode_entries fuel valid (add_prop t v props) rest'

unfoldable pub decode_props : List PropertyType → List ℕ → Result (Props × List ℕ)
unfolding decode_entries
decode_props valid bs = do
  (size, rest) ← decode_uintvar bs
  guard (not (ltb (length rest) size)) mqtt_malformed_packet
  props ← decode_entries size valid [] (take size rest)
  ok (props, drop size rest)
