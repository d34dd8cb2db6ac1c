-- ===== src/Modbus/Transport/Connection.antt =====
-- src_py/hat/drivers/modbus/transport/connection.py: sending and receiving data units on a link.
use hat_drivers.Base.{ℕ, ◌≡◌, refl, arith, List, [], ◌++◌}
use hat_drivers.Base.{Result, ok, ◌>>=◌, length, length-append, inl}
use hat_drivers.Base.Bytes.{IsByte, IsU16}
use hat_drivers.Base.Stream.{read_frame, rounds, read_frame-append}
use mathlib.Core.List.{append-nil}
use hat_drivers.Modbus.Common.{ModbusType, tcp, rtu, ascii}
use hat_drivers.Modbus.Transport.Common.{Direction, Pdu, Adu, tcp_adu, rtu_adu, ascii_adu}
use hat_drivers.Modbus.Transport.Encode.{encode_adu}
use hat_drivers.Modbus.Transport.Decode.{decode_adu}
use hat_drivers.Modbus.Transport.Size.{get_next_adu_size}
use hat_drivers.Modbus.Transport.Pdus.{IsPdu, direction_of, pdu_received}
use hat_drivers.Modbus.Transport.Tcp.{tcp_image, encode_tcp_adu-image, decode_tcp_adu-image}
use hat_drivers.Modbus.Transport.Tcp.{get_next_tcp_adu_size-image, tcp_image-Asks}
use hat_drivers.Modbus.Transport.Rtu.{rtu_image, encode_rtu_adu-image, decode_rtu_adu-image}
use hat_drivers.Modbus.Transport.RtuSize.Frame.{rtu_image-Asks, rtu_image-size}
use hat_drivers.Modbus.Transport.Ascii.{ascii_image, encode_ascii_adu-image, decode_ascii_adu-image}
use hat_drivers.Modbus.Transport.Ascii.{get_next_ascii_adu_size-image, ascii_image-Asks, Stop}

-- The bytes that `send` writes to the link
unfoldable pub send : Adu → Result (List ℕ)
send adu = encode_adu adu

-- The data unit, and what stays in the stream; the loop reads until the size is reached.
unfoldable pub receive : ModbusType → Direction → List ℕ → Result (Adu × List ℕ)
receive modbus_type direction stream = do
  (buff, stream') ← read_frame (get_next_adu_size modbus_type direction) (rounds stream) [] stream
  (adu, _) ← decode_adu modbus_type direction buff
  ok (adu, stream')

abbrev pub IsAdu : Adu → Type 0
IsAdu (tcp_adu transaction_id device_id pdu) = IsU16 transaction_id × IsByte device_id × IsPdu pdu
IsAdu (rtu_adu device_id pdu) = IsByte device_id × IsPdu pdu
IsAdu (ascii_adu device_id pdu) = IsByte device_id × IsPdu pdu

abbrev pub type_of : Adu → ModbusType
type_of (tcp_adu _ _ _) = tcp
type_of (rtu_adu _ _) = rtu
type_of (ascii_adu _ _) = ascii

abbrev pub adu_pdu : Adu → Pdu
adu_pdu (tcp_adu _ _ pdu) = pdu
adu_pdu (rtu_adu _ pdu) = pdu
adu_pdu (ascii_adu _ pdu) = pdu

abbrev pub adu_received : Adu → Adu
adu_received (tcp_adu t d pdu) = tcp_adu t d (pdu_received pdu)
adu_received (rtu_adu d pdu) = rtu_adu d (pdu_received pdu)
adu_received (ascii_adu d pdu) = ascii_adu d (pdu_received pdu)

abbrev pub adu_image : Adu → List ℕ
adu_image (tcp_adu t d pdu) = tcp_image t d pdu
adu_image (rtu_adu d pdu) = rtu_image d pdu
adu_image (ascii_adu d pdu) = ascii_image d pdu

pub send-image : (adu : Adu) → IsAdu adu → send adu ≡ ok (adu_image adu)
unfolding send encode_adu
send-image (tcp_adu t d p) h = encode_tcp_adu-image t d p h.0 h.1 h.2
send-image (rtu_adu d p) h = encode_rtu_adu-image d p h.0 h.1
send-image (ascii_adu d p) h = encode_ascii_adu-image d p h.0 h.1

decode-image :
    (adu : Adu) (rest : List ℕ)
    → IsAdu adu
    → decode_adu (type_of adu) (direction_of (adu_pdu adu)) (adu_image adu ++ rest)
      ≡ ok (adu_received adu, rest)
unfolding decode_adu
decode-image (tcp_adu t d p) rest h = decode_tcp_adu-image t d p rest h.2
decode-image (rtu_adu d p) rest h = decode_rtu_adu-image d p rest h.1
decode-image (ascii_adu d p) rest h = decode_ascii_adu-image d p rest h.0 h.1

frame-image :
    (adu : Adu) (rest : List ℕ)
    → IsAdu adu
    → read_frame
        (get_next_adu_size (type_of adu) (direction_of (adu_pdu adu)))
        (rounds (adu_image adu ++ rest))
        []
        (adu_image adu ++ rest)
      ≡ ok (adu_image adu, rest)
unfolding get_next_adu_size
frame-image (tcp_adu t d p) rest h =
    read_frame-append _ (λ n. Unit {0}) rest _ [] (tcp_image t d p) {n = length (tcp_image t d p)}
      (omega (arith, length-append {0} (tcp_image t d p) rest))
      (λ a b e ne s. tcp_image-Asks t d p a b e ne) tt (get_next_tcp_adu_size-image t d p)
      (omega arith)
frame-image (rtu_adu d p) rest h =
    read_frame-append _ (λ n. Unit {0}) rest _ [] (rtu_image d p) {n = length (rtu_image d p)}
      (omega (arith, length-append {0} (rtu_image d p) rest))
      (λ a b e ne s. rtu_image-Asks d p a b h.1 e ne) tt (rtu_image-size d p h.1) (omega arith)
frame-image (ascii_adu d p) rest h =
    read_frame-append _ Stop rest _ [] (ascii_image d p) {n = length (ascii_image d p)}
      (omega (arith, length-append {0} (ascii_image d p) rest))
      (λ a b e ne s. ascii_image-Asks d p a b e ne s) (inl refl) (get_next_ascii_adu_size-image d p)
      (omega arith)

-- `decode_adu` reads back what `encode_adu` writes for each data unit that fits the protocol, in each of
-- the three framings and both directions, and leaves what follows the frame; the coils in a response
-- come with zeros that fill the last byte.
pub decode_adu-encode_adu :
    (adu : Adu) (rest : List ℕ)
    → IsAdu adu
    → (encode_adu adu >>= λ bs. decode_adu (type_of adu) (direction_of (adu_pdu adu)) (bs ++ rest))
      ≡ ok (adu_received adu, rest)
unfolding send
decode_adu-encode_adu adu rest h = rw (send-image adu h) (decode-image adu rest h)

pub receive-image :
    (adu : Adu) (rest : List ℕ)
    → IsAdu adu
    → receive (type_of adu) (direction_of (adu_pdu adu)) (adu_image adu ++ rest)
      ≡ ok (adu_received adu, rest)
unfolding receive
receive-image adu rest h = rw (frame-image adu rest h, rw append-nil at (decode-image adu [] h))

-- A data unit that fits the protocol and that one side sends is what the other receives, in each of the
-- three framings and both directions, and nothing more is taken off the stream; the coils in a response
-- come with zeros that fill the last byte.
pub receive-send :
    (adu : Adu) (rest : List ℕ)
    → IsAdu adu
    → (send adu >>= λ bs. receive (type_of adu) (direction_of (adu_pdu adu)) (bs ++ rest))
      ≡ ok (adu_received adu, rest)
receive-send adu rest h = rw (send-image adu h) (receive-image adu rest h)
