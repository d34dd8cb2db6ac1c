-- ===== src/Cotp/Examples.antt =====
-- Concrete data units, packets and connections.
use hat_drivers.Base.{◌≡◌, refl, arith, [], ◌∷◌, ◌++◌, length, none, some, ok, ◌>>=◌}
use hat_drivers.Cotp.Tpkt
use hat_drivers.Cotp.Tpkt.{read_packet-send}
use hat_drivers.Cotp.Encoder.{Tpdu, cc_tpdu, encode, decode, bit_length, bits}
use hat_drivers.Cotp.Encoder.Fields.{IsTpdu}
use hat_drivers.Cotp.Encoder.RoundTrip.{decode-encode_tpdu}
use hat_drivers.Cotp.Connection.{send_data, receive_data}
use hat_drivers.Base.{err, stuck}
use hat_drivers.Base.{ℕ, List}
use hat_drivers.Cotp.Encoder.{cr_tpdu}
use hat_drivers.Cotp.Connection.{Opened, on_connection}
use hat_drivers.Cotp.Connection.Small.{small_request, on_connection-send_data}
use hat_drivers.Cotp.Connection.Delivery.{receive_data-send_data}
use hat_drivers.Cotp.Connection.Handshake.{handshake, handshake_lem}

read_packet-send_example :
    (Tpkt.send (2 ∷ 240 ∷ 128 ∷ 5 ∷ []) >>= λ image. Tpkt.read_packet (image ++ 7 ∷ []))
    ≡ ok (2 ∷ 240 ∷ 128 ∷ 5 ∷ [], 7 ∷ [])
read_packet-send_example =
    read_packet-send (2 ∷ 240 ∷ 128 ∷ 5 ∷ []) (7 ∷ []) (omega arith) (omega arith)

abbrev a_tpdu : Tpdu
a_tpdu = cc_tpdu 300 7 0 (record {
  calling_tsel = none;
  called_tsel = some 258;
  max_tpdu = some 1024;
  pref_max_tpdu = none;
})

a_tpdu-IsTpdu : IsTpdu a_tpdu
unfolding bit_length bits
a_tpdu-IsTpdu = (
  omega arith,
  omega arith,
  omega arith,
  (tt, omega arith, (omega arith, omega arith, refl), refl),
)

decode-encode_tpdu_example : (encode a_tpdu >>= decode) ≡ ok a_tpdu
decode-encode_tpdu_example = decode-encode_tpdu a_tpdu a_tpdu-IsTpdu

receive_data-send_data_example :
    (send_data 5 3 (1 ∷ 2 ∷ 3 ∷ []) >>= λ image.
    receive_data (length (image ++ 7 ∷ [])) [] (image ++ 7 ∷ []))
    ≡ ok (some (1 ∷ 2 ∷ 3 ∷ []), 7 ∷ [])
receive_data-send_data_example =
    receive_data-send_data 5 (1 ∷ 2 ∷ 3 ∷ []) (7 ∷ []) (λ e. cc)
      (omega arith, (omega arith, (omega arith, tt))) (omega arith) (omega arith)

handshake_lem_example :
    handshake 1 2 (some 5) none
    ≡ ok (
      record { max_tpdu = some 2048; local_tsel = some 5; remote_tsel = none },
      record { max_tpdu = some 2048; local_tsel = none; remote_tsel = some 5 },
    )
handshake_lem_example = handshake_lem 1 2 (some 5) none (omega arith) (omega arith) (omega arith) tt

on_connection-send_data_example :
    (request : List ℕ) × (response : List ℕ) × (opened : Opened) × (encode
        (cr_tpdu 7 0 (small_request 2 none (some 5)))
      ≡ ok request)
    × (on_connection 9 request ≡ ok (response, opened))
    × (opened.max_tpdu ≡ some 2)
    × (send_data 2 1000 (1 ∷ 2 ∷ 3 ∷ []) ≡ err stuck)
on_connection-send_data_example =
    on_connection-send_data 7 9 2 none (some 5) 1000 (1 ∷ 2 ∷ 3 ∷ []) (omega arith) (omega arith) tt
      (omega arith) (omega arith) (omega arith) (omega arith) (omega arith)
      (omega arith, (omega arith, (omega arith, tt)))
