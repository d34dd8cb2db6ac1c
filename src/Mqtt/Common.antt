-- ===== src/Mqtt/Common.antt =====
-- src_py/hat/drivers/mqtt/common.py: the values that packets are made of.
use hat_drivers.Base.{ℕ, List, Bool, Result, ok, err, value_error, leb, ◌==◌, if◌then◌else◌}

-- A `str` is the list of the bytes of its UTF-8 encoding.
abbrev pub Text : Type 0
Text = List ℕ

-- `EXACLTY_ONCE` in the source
pub data QoS : Type 0 where
  at_most_once at_least_once exactly_once : QoS

unfoldable pub qos_value : QoS → ℕ
qos_value at_most_once = 0
qos_value at_least_once = 1
qos_value exactly_once = 2

unfoldable pub to_qos : ℕ → Result QoS
to_qos v =
    if v == 0
    then ok at_most_once
    else if v == 1
    then ok at_least_once
    else if v == 2
    then ok exactly_once
    else err value_error

pub data RetainHandling : Type 0 where
  send_on_subscribe send_on_new_subscribe dont_send : RetainHandling

unfoldable pub retain_handling_value : RetainHandling → ℕ
retain_handling_value send_on_subscribe = 0
retain_handling_value send_on_new_subscribe = 1
retain_handling_value dont_send = 2

unfoldable pub to_retain_handling : ℕ → Result RetainHandling
to_retain_handling v =
    if v == 0
    then ok send_on_subscribe
    else if v == 1
    then ok send_on_new_subscribe
    else if v == 2
    then ok dont_send
    else err value_error

pub data Reason : Type 0 where
  success granted_qos_1 granted_qos_2 disconnect_with_will_message : Reason
  no_matching_subscribers no_subscription_existed continue_authentication : Reason
  re_authenticate unspecified_error malformed_packet protocol_error : Reason
  implementation_specific_error unsupported_protocol_version : Reason
  client_identifier_not_valid bad_user_name_or_password not_authorized : Reason
  server_unavailable server_busy banned server_shutting_down bad_authentication_method : Reason
  keep_alive_timeout session_taken_over topic_filter_invalid topic_name_invalid : Reason
  packet_identifier_in_use packet_identifier_not_found receive_maximum_exceeded : Reason
  topic_alias_invalid packet_too_large message_rate_too_high quota_exceeded : Reason
  administrative_action payload_format_invalid retain_not_supported qos_not_supported : Reason
  use_another_server server_moved shared_subscriptions_not_supported : Reason
  connection_rate_exceeded maximum_connect_time subscription_identifiers_not_supported : Reason
  wildcard_subscriptions_not_supported : Reason

unfoldable pub reason_value : Reason → ℕ
reason_value success = 0x0
reason_value granted_qos_1 = 0x1
reason_value granted_qos_2 = 0x2
reason_value disconnect_with_will_message = 0x4
reason_value no_matching_subscribers = 0x10
reason_value no_subscription_existed = 0x11
reason_value continue_authentication = 0x24
reason_value re_authenticate = 0x25
reason_value unspecified_error = 0x80
reason_value malformed_packet = 0x81
reason_value protocol_error = 0x82
reason_value implementation_specific_error = 0x83
reason_value unsupported_protocol_version = 0x84
reason_value client_identifier_not_valid = 0x85
reason_value bad_user_name_or_password = 0x86
reason_value not_authorized = 0x87
reason_value server_unavailable = 0x88
reason_value server_busy = 0x89
reason_value banned = 0x8a
reason_value server_shutting_down = 0x8b
reason_value bad_authentication_method = 0x8c
reason_value keep_alive_timeout = 0x8d
reason_value session_taken_over = 0x8e
reason_value topic_filter_invalid = 0x8f
reason_value topic_name_invalid = 0x90
reason_value packet_identifier_in_use = 0x91
reason_value packet_identifier_not_found = 0x92
reason_value receive_maximum_exceeded = 0x93
reason_value topic_alias_invalid = 0x94
reason_value packet_too_large = 0x95
reason_value message_rate_too_high = 0x96
reason_value quota_exceeded = 0x97
reason_value administrative_action = 0x98
reason_value payload_format_invalid = 0x99
reason_value retain_not_supported = 0x9a
reason_value qos_not_supported = 0x9b
reason_value use_another_server = 0x9c
reason_value server_moved = 0x9d
reason_value shared_subscriptions_not_supported = 0x9e
reason_value connection_rate_exceeded = 0x9f
reason_value maximum_connect_time = 0xa0
reason_value subscription_identifiers_not_supported = 0xa1
reason_value wildcard_subscriptions_not_supported = 0xa2

-- `common.Reason(value)`, which raises `ValueError` on any other value
unfoldable pub to_reason : ℕ → Result Reason
to_reason v =
    if v == 0x0
    then ok success
    else if v == 0x1
    then ok granted_qos_1
    else if v == 0x2
    then ok granted_qos_2
    else if v == 0x4
    then ok disconnect_with_will_message
    else if v == 0x10
    then ok no_matching_subscribers
    else if v == 0x11
    then ok no_subscription_existed
    else if v == 0x24
    then ok continue_authentication
    else if v == 0x25
    then ok re_authenticate
    else if v == 0x80
    then ok unspecified_error
    else if v == 0x81
    then ok malformed_packet
    else if v == 0x82
    then ok protocol_error
    else if v == 0x83
    then ok implementation_specific_error
    else if v == 0x84
    then ok unsupported_protocol_version
    else if v == 0x85
    then ok client_identifier_not_valid
    else if v == 0x86
    then ok bad_user_name_or_password
    else if v == 0x87
    then ok not_authorized
    else if v == 0x88
    then ok server_unavailable
    else if v == 0x89
    then ok server_busy
    else if v == 0x8a
    then ok banned
    else if v == 0x8b
    then ok server_shutting_down
    else if v == 0x8c
    then ok bad_authentication_method
    else if v == 0x8d
    then ok keep_alive_timeout
    else if v == 0x8e
    then ok session_taken_over
    else if v == 0x8f
    then ok topic_filter_invalid
    else if v == 0x90
    then ok topic_name_invalid
    else if v == 0x91
    then ok packet_identifier_in_use
    else if v == 0x92
    then ok packet_identifier_not_found
    else if v == 0x93
    then ok receive_maximum_exceeded
    else if v == 0x94
    then ok topic_alias_invalid
    else if v == 0x95
    then ok packet_too_large
    else if v == 0x96
    then ok message_rate_too_high
    else if v == 0x97
    then ok quota_exceeded
    else if v == 0x98
    then ok administrative_action
    else if v == 0x99
    then ok payload_format_invalid
    else if v == 0x9a
    then ok retain_not_supported
    else if v == 0x9b
    then ok qos_not_supported
    else if v == 0x9c
    then ok use_another_server
    else if v == 0x9d
    then ok server_moved
    else if v == 0x9e
    then ok shared_subscriptions_not_supported
    else if v == 0x9f
    then ok connection_rate_exceeded
    else if v == 0xa0
    then ok maximum_connect_time
    else if v == 0xa1
    then ok subscription_identifiers_not_supported
    else if v == 0xa2
    then ok wildcard_subscriptions_not_supported
    else err value_error

pub record Subscription : Type 0 where
  pub topic_filter : Text
  pub maximum_qos : QoS
  pub no_local : Bool
  pub retain_as_published : Bool
  pub retain_handling : RetainHandling

unfoldable pub is_error_reason : Reason → Bool
unfolding reason_value
is_error_reason reason = leb 0x80 (reason_value reason)
