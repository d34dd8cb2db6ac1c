-- ===== src/Link/Examples.antt =====
-- A concrete frame of the link layer.
use hat_drivers.Base.{◌≡◌, arith, [], ◌∷◌, ◌++◌, ◌>>=◌, true, false, some, ok}
use hat_drivers.Link.Common.{size_two, a_to_b, data_req, Frame, req_frame}
use hat_drivers.Link.Encoder.{encode, decode}
use hat_drivers.Link.Encoder.RoundTrip.{decode-encode_link, IsFrame}
use hat_drivers.Base.{err, stuck, ◌≢◌}
use hat_drivers.Link.Endpoint.{send, receive, enough, receive-ne-stuck}
use hat_drivers.Link.Endpoint.Delivery.{receive-send_frame}

abbrev data_frame : Frame
data_frame = req_frame (some a_to_b) true false data_req 0x1234 (7 ∷ 255 ∷ [])

data_frame-IsFrame : IsFrame size_two true data_frame
data_frame-IsFrame = (tt, omega arith, (omega arith, (omega arith, (omega arith, tt))))

decode-encode_link_example :
    (encode size_two true data_frame >>= λ bs. decode size_two true (bs ++ 0x68 ∷ []))
    ≡ ok data_frame
decode-encode_link_example =
    decode-encode_link size_two true data_frame (0x68 ∷ []) data_frame-IsFrame

receive-send_frame_example :
    (send size_two true data_frame >>= λ bs.
    receive size_two true (enough [] (bs ++ 0x68 ∷ [])) [] (bs ++ 0x68 ∷ []))
    ≡ ok (data_frame, [], 0x68 ∷ [])
receive-send_frame_example =
    receive-send_frame size_two true data_frame (0x68 ∷ []) data_frame-IsFrame

-- A byte that starts no frame, and a frame of fixed length with a wrong check sum
receive-ne-stuck_example :
    receive size_two true 16 [] (3 ∷ 0x10 ∷ 1 ∷ 2 ∷ 3 ∷ 4 ∷ 0x16 ∷ []) ≢ err stuck
receive-ne-stuck_example =
    receive-ne-stuck size_two true 16 [] (3 ∷ 0x10 ∷ 1 ∷ 2 ∷ 3 ∷ 4 ∷ 0x16 ∷ []) (omega arith)
