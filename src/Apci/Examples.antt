-- ===== src/Apci/Examples.antt =====
-- Concrete APDUs and streams.
use hat_drivers.Base.{ℕ, ◌≡◌, ◌⊎◌, refl, arith, List, [], ◌∷◌, ◌++◌, All, ok, err, ◌>>=◌}
use hat_drivers.Base.{value_error}
use hat_drivers.Base.Bytes.{IsByte, to_bytes}
use hat_drivers.Apci.Encoder.{
  Apdu, apdui, apdus, decode, decode_fields, encode, encode_fields, IsApdu,
}
use hat_drivers.Apci.Encoder.RoundTrip.{decode-encode, image, body}
use hat_drivers.Apci.Encoder.Errors.{encode_cases, IsDecoded, decode-IsDecoded}
use hat_drivers.Apci.Transport.{read, write, read-write}
use hat_drivers.Apci.Transport.Whole.{read_whole, read-read_whole}
use hat_drivers.Base.{◌≤◌, true, false, plain, ◌<◌}
use hat_drivers.Apci.Connection.{
  Connection, new, set_ack, write_apdui, writes, written, waits, discards,
}
use hat_drivers.Apci.Connection.{Output}
use hat_drivers.Apci.Connection.Window.{distance}
use hat_drivers.Apci.Connection.Invariant.{Inv, new-Inv, acked, set_ack_cases}
use hat_drivers.Apci.Connection.Sending.{IsPayload, sent, write_apdui_cases, Reaches, start, step}
use hat_drivers.Apci.Connection.Sending.{sends, reach-Inv}
use hat_drivers.Apci.Connection.Delivery.{nothing, next_item, process_all, nonempty, delivery}
use hat_drivers.Apci.Connection.Steps.{delivered_data}

abbrev data_apdu : Apdu
data_apdu = apdui 300 0x7FFF (1 ∷ 2 ∷ 255 ∷ [])

data_apdu-IsApdu : IsApdu data_apdu
data_apdu-IsApdu =
    (omega arith, omega arith, omega arith, (omega arith, (omega arith, (omega arith, tt))))

decode-encode_example : (encode data_apdu >>= λ bs. decode (bs ++ 7 ∷ [])) ≡ ok data_apdu
decode-encode_example = decode-encode data_apdu (7 ∷ []) data_apdu-IsApdu

encode_cases_example :
    (IsApdu (apdus 0x8000) × (encode (apdus 0x8000) ≡ ok (image (apdus 0x8000))))
    ⊎ ((¬ IsApdu (apdus 0x8000)) × (encode (apdus 0x8000) ≡ err value_error))
encode_cases_example = encode_cases (apdus 0x8000)

abbrev short_frame : List ℕ
short_frame = 0x68 ∷ 4 ∷ 1 ∷ 0 ∷ 254 ∷ 255 ∷ []

decode-short_frame : decode short_frame ≡ ok (apdus 0x7FFF)
unfolding decode decode_fields
decode-short_frame = refl

short_frame-IsByte : All IsByte short_frame
short_frame-IsByte =
    (omega arith, (omega arith, (omega arith, (omega arith, (omega arith, (omega arith, tt))))))

decode-IsDecoded_example : IsDecoded (apdus 0x7FFF)
decode-IsDecoded_example =
    decode-IsDecoded short_frame {apdu = apdus 0x7FFF} short_frame-IsByte decode-short_frame

read-write_example :
    (write data_apdu >>= λ bs. read (bs ++ 0x68 ∷ 4 ∷ [])) ≡ ok (data_apdu, 0x68 ∷ 4 ∷ [])
read-write_example = read-write data_apdu (0x68 ∷ 4 ∷ []) data_apdu-IsApdu

read-read_whole_example : read (short_frame ++ 7 ∷ []) ≡ read_whole (short_frame ++ 7 ∷ [])
read-read_whole_example = read-read_whole (short_frame ++ 7 ∷ [])

-- A connection that may send two items without an acknowledgement
abbrev client : Connection
client = new true 2 8

client-Inv : Inv client
client-Inv = new-Inv true 2 8 (omega arith)

hello-IsPayload : IsPayload (104 ∷ 105 ∷ [])
hello-IsPayload = (omega arith, (omega arith, (omega arith, tt)))

abbrev greeted : Connection
greeted = sent client

write_hello :
    write_apdui client (104 ∷ 105 ∷ [])
    ≡ ok
        (writes greeted (written (apdui 0 0 (104 ∷ 105 ∷ [])) (image (apdui 0 0 (104 ∷ 105 ∷ [])))))
unfolding write_apdui new write encode encode_fields to_bytes image body
write_hello = refl

greeted-Reaches : Reaches client greeted
greeted-Reaches = step start (sends (104 ∷ 105 ∷ []) write_hello)

reach-Inv_example : Inv greeted
reach-Inv_example = reach-Inv true 2 8 (omega arith) greeted-Reaches

set_ack_cases_example :
    ((distance 0 1 ≤ 1) × (set_ack greeted 1 ≡ ok (acked greeted 1)) × Inv (acked greeted 1))
    ⊎ ((1 < distance 0 1) × (set_ack greeted 1 ≡ err plain))
unfolding new
set_ack_cases_example = set_ack_cases greeted 1 reach-Inv_example (omega arith)

write_apdui_cases_example :
    ((2 ≤ 1) × (write_apdui greeted (33 ∷ []) ≡ ok waits))
    ⊎ ((1 < 2) × (true ≡ false) × (write_apdui greeted (33 ∷ []) ≡ ok discards))
    ⊎ ((1 < 2)
        × (true ≡ true)
        × Inv (sent greeted)
        × (write_apdui greeted (33 ∷ [])
            ≡ ok (
                writes
                  (sent greeted)
                  (written (apdui 1 0 (33 ∷ [])) (image (apdui 1 0 (33 ∷ [])))))))
unfolding new
write_apdui_cases_example =
    write_apdui_cases greeted (33 ∷ []) reach-Inv_example (omega arith, (omega arith, tt))

abbrev server : Connection
server = new false 12 8

delivery_example :
    (b' : Connection) × (outs : List Output) × (process_all server (apdui 0 0 (104 ∷ 105 ∷ []) ∷ [])
      ≡ ok (b', outs))
    × (delivered_data outs ≡ nonempty ((104 ∷ 105 ∷ []) ∷ []))
    × (b'.rsn ≡ greeted.ssn)
unfolding new
delivery_example =
    delivery {a = client} {a' = greeted} {b = server} {items = (104 ∷ 105 ∷ []) ∷ []}
      {apdus' = apdui 0 0 (104 ∷ 105 ∷ []) ∷ []} (next_item hello-IsPayload write_hello nothing)
      client-Inv (new-Inv false 12 8 (omega arith)) refl refl
