-- ===== src/Link/Encoder/RoundTrip.antt =====
-- `decode` reads back what `encode` writes.
use hat_drivers.Base.{
  ℕ, suc, ◌+◌, ◌-◌, ◌/◌, ◌%◌, ◌≤◌, ◌<◌, ◌≡◌, refl, sym, ◌∙◌, arith, List, [], ◌∷◌,
}
use hat_drivers.Base.{
  ◌++◌, length, length-append, take-append, All, All-append, ==-refl, Bool, false,
}
use hat_drivers.Base.{ok, ◌>>=◌, le→not-ltb, ◌==◌, ltb}
use hat_drivers.Base.Bytes.{IsByte, at, slice, sum, to_bytes_lem, int_to_little}
use hat_drivers.Base.Stream.{at-append}
use hat_drivers.Link.Common.{AddressSize, size_zero, size_one, size_two, size_value}
use hat_drivers.Link.Common.{Frame}
use hat_drivers.Link.Common.{short_frame, req_frame, res_frame}
use hat_drivers.Link.Encoder.{cut_frame, from_end, decode_frame}
use hat_drivers.Link.Encoder.{decode_address, decode_body, decode}
use hat_drivers.Link.Encoder.{encode_address, header, assemble, encode}
use hat_drivers.Link.Encoder.Control.{HasDirection, control_req_lem, control_res_lem}

abbrev pub FitsAddress : AddressSize → ℕ → Type 0
FitsAddress size_zero address = address ≡ 0
FitsAddress size_one address = address < 256
FitsAddress size_two address = address < 65536

abbrev pub address_image : AddressSize → ℕ → List ℕ
address_image size_zero a = []
address_image size_one a = a ∷ []
address_image size_two a = (a % 256) ∷ (a / 256) ∷ []

encode_address-image :
    (size : AddressSize) (a : ℕ)
    → FitsAddress size a
    → encode_address size a ≡ ok (address_image size a)
unfolding encode_address int_to_little
encode_address-image size_zero a h = refl
encode_address-image size_one a h = ground arith
encode_address-image size_two a h = ground arith

address_image-IsByte :
    (size : AddressSize) (a : ℕ) → FitsAddress size a → All IsByte (address_image size a)
address_image-IsByte size_zero a h = tt
address_image-IsByte size_one a h = (h, tt)
address_image-IsByte size_two a h = (omega arith, (omega arith, tt))

-- The control field, the address and the data
abbrev pub items : AddressSize → ℕ → ℕ → List ℕ → List ℕ
items size c a payload = c ∷ (address_image size a ++ payload)

abbrev pub body : AddressSize → ℕ → ℕ → List ℕ → List ℕ
body size c a payload = items size c a payload ++ (sum (items size c a payload) % 256 ∷ 0x16 ∷ [])

at-second : (xs : List ℕ) (x y : ℕ) → at (xs ++ (x ∷ y ∷ [])) (length xs + 1) ≡ ok y
at-second [] x y = refl
at-second (z ∷ xs) x y =
    let e : suc (length xs) + 1 ≡ suc (length xs + 1) = omega arith in rw e (at-second xs x y)

-- The last two bytes of a frame
from_end-tail :
    (xs : List ℕ) (x y : ℕ)
    → (from_end (xs ++ (x ∷ y ∷ [])) 1 ≡ ok y) × (from_end (xs ++ (x ∷ y ∷ [])) 2 ≡ ok x)
unfolding from_end
from_end-tail xs x y =
    let e : length (xs ++ (x ∷ y ∷ [])) ≡ length xs + 2 =
      omega (arith, length-append {0} xs (x ∷ y ∷ [])) in
    let l1 : ltb (length xs + 2) 1 ≡ false = le→not-ltb _ 1 (omega arith) in
    let l2 : ltb (length xs + 2) 2 ≡ false = le→not-ltb _ 2 (omega arith) in
    let m1 : length xs + 2 - 1 ≡ length xs + 1 = omega arith in
    let m2 : length xs + 2 - 2 ≡ length xs = omega arith in
    (rw (e, l1, m1) (at-second xs x y), rw (e, l2, m2) (at-append xs (y ∷ []) x))

shown_address :
    (size : AddressSize) (c a n : ℕ) (payload tail : List ℕ)
    → FitsAddress size a
    → n ≡ length (items size c a payload)
    → (decode_address size (slice 1 (1 + size_value size) (items size c a payload ++ tail)) ≡ a)
      × (slice (1 + size_value size) n (items size c a payload ++ tail) ≡ payload)
unfolding decode_address size_value
shown_address size_zero c a n payload tail h e =
    (sym h, rw e (take-append (length payload) payload tail refl))
shown_address size_one c a n payload tail h e =
    (omega arith, rw e (take-append (length payload) payload tail refl))
shown_address size_two c a n payload tail h e =
    (omega arith, rw e (take-append (length payload) payload tail refl))

-- The check sum and the end
abbrev pub tail : List ℕ → List ℕ
tail xs = sum xs % 256 ∷ 0x16 ∷ []

decode_body-tail :
    (size : AddressSize) (valid : Bool) (xs : List ℕ) {c a : ℕ} {payload : List ℕ}
    → at (xs ++ tail xs) 0 ≡ ok c
    → decode_address size (slice 1 (1 + size_value size) (xs ++ tail xs)) ≡ a
    → slice (1 + size_value size) (length xs) (xs ++ tail xs) ≡ payload
    → decode_body size valid (xs ++ tail xs) ≡ decode_frame valid c a payload
unfolding decode_body
decode_body-tail size valid xs first address data' =
    let crc = sum xs % 256 in
    let (last, before) = from_end-tail xs crc 0x16 in
    let n : length (xs ++ tail xs) - 2 ≡ length xs =
      omega (arith, length-append {0} xs (tail xs)) in
    rw (
      last,
      before,
      n,
      take-append (length xs) xs (tail xs) refl,
      ==-refl crc,
      first,
      address,
      data',
    )

decode_body-body :
    (size : AddressSize) (valid : Bool) (c a : ℕ) (payload : List ℕ)
    → FitsAddress size a
    → decode_body size valid (body size c a payload) ≡ decode_frame valid c a payload
decode_body-body size valid c a payload h =
    let xs = items size c a payload in
    let (address, data') = shown_address size c a (length xs) payload (tail xs) h refl in
    decode_body-tail size valid xs refl address data'

-- What the length byte of a frame with data can count, and frames without data of any address
abbrev pub FitsData : AddressSize → List ℕ → Type 0
FitsData size payload = (length payload + 1 + 2 ≤ 255) × All IsByte payload

abbrev pub frame_image : AddressSize → ℕ → ℕ → List ℕ → List ℕ
unfolding header
frame_image size c a payload =
    header payload (length (items size c a payload)) ++ body size c a payload

header-IsByte : (payload : List ℕ) (n : ℕ) → n ≤ 255 → All IsByte (header payload n)
unfolding header
header-IsByte [] n h = (omega arith, tt)
header-IsByte (x ∷ xs) n h = (omega arith, (omega arith, (omega arith, (omega arith, tt))))

items-length :
    (size : AddressSize) (c a : ℕ) (payload : List ℕ)
    → length (items size c a payload) ≤ length payload + 3
items-length size_zero c a payload = omega arith
items-length size_one c a payload = omega arith
items-length size_two c a payload = omega arith

pub assemble-image :
    (size : AddressSize) (c a : ℕ) (payload : List ℕ)
    → c < 256
    → FitsAddress size a
    → FitsData size payload
    → assemble size c a payload ≡ ok (frame_image size c a payload)
unfolding assemble
assemble-image size c a payload k h f =
    let xs = items size c a payload in
    let n : length xs ≤ 255 = omega (arith, items-length size c a payload, f.0) in
    let b : All IsByte xs = (k, All-append IsByte _ _ (address_image-IsByte size a h) f.1) in
    let t : All IsByte (body size c a payload) =
      All-append IsByte xs (tail xs) b (omega arith, (omega arith, tt)) in
    rw (encode_address-image size a h) (
      to_bytes_lem (frame_image size c a payload)
        (All-append IsByte _ _ (header-IsByte payload (length xs) n) t))

-- What follows a frame is not decoded.
cut_frame-short :
    (size : AddressSize) (c a : ℕ) (rest : List ℕ)
    → cut_frame size (0x10 ∷ (body size c a [] ++ rest)) ≡ ok (body size c a [])
unfolding cut_frame size_value
cut_frame-short size_zero c a rest = refl
cut_frame-short size_one c a rest = refl
cut_frame-short size_two c a rest = refl

cut_frame-long :
    (size : AddressSize) (n : ℕ) (xs rest : List ℕ)
    → n + 2 ≡ length xs
    → cut_frame size (0x68 ∷ n ∷ n ∷ 0x68 ∷ (xs ++ rest)) ≡ ok xs
unfolding cut_frame
cut_frame-long size n xs rest h =
    let e : n + 6 ≡ suc (suc (suc (suc (n + 2)))) = omega arith in
    rw (==-refl n, e, take-append (n + 2) xs rest h)

decode-cut :
    (size : AddressSize) (valid : Bool) (start : ℕ) (bs : List ℕ) {bs' : List ℕ}
    → (start == 0xE5) ≡ false
    → cut_frame size (start ∷ bs) ≡ ok bs'
    → decode size valid (start ∷ bs) ≡ decode_body size valid bs'
unfolding decode
decode-cut size valid start bs h e = rw (h, e)

pub decode-image :
    (size : AddressSize) (valid : Bool) (c a : ℕ) (payload rest : List ℕ)
    → FitsAddress size a
    → decode size valid (frame_image size c a payload ++ rest) ≡ decode_frame valid c a payload
unfolding header
decode-image size valid c a [] rest h =
    decode-cut size valid 0x10 (body size c a [] ++ rest) refl (cut_frame-short size c a rest)
    ∙ decode_body-body size valid c a [] h
decode-image size valid c a (x ∷ xs) rest h =
    let ys = items size c a (x ∷ xs) in
    let n = length ys in
    let bs = body size c a (x ∷ xs) in
    let e : n + 2 ≡ length bs = omega (arith, length-append {0} ys (tail ys)) in
    decode-cut size valid 0x68 (n ∷ n ∷ 0x68 ∷ (bs ++ rest)) refl (cut_frame-long size n bs rest e)
    ∙ decode_body-body size valid c a (x ∷ xs) h

-- Frames that fit the link: a direction exactly if the link uses it, an address of its size, and at most
-- 252 bytes of data.
abbrev pub IsFrame : AddressSize → Bool → Frame → Type 0
IsFrame size valid short_frame = Unit
IsFrame size valid (req_frame d b v f a payload) =
    HasDirection valid d × FitsAddress size a × FitsData size payload
IsFrame size valid (res_frame d b v f a payload) =
    HasDirection valid d × FitsAddress size a × FitsData size payload

pub short-image :
    (size : AddressSize) (valid : Bool) (rest : List ℕ)
    → decode size valid (0xE5 ∷ rest) ≡ ok short_frame
unfolding decode
short-image size valid rest = refl

-- For every size of addresses, with and without directions, `decode` reads back each frame that fits the
-- link from the bytes that `encode` writes, and ignores what follows them.
pub decode-encode_link :
    (size : AddressSize) (valid : Bool) (frame : Frame) (rest : List ℕ)
    → IsFrame size valid frame
    → (encode size valid frame >>= λ bs. decode size valid (bs ++ rest)) ≡ ok frame
unfolding encode
decode-encode_link size valid short_frame rest h = short-image size valid rest
decode-encode_link size valid (req_frame d b v f a payload) rest h =
    let c = control_req_lem valid d b v f h.0 in
    rw (c.made, assemble-image size c.value a payload c.fits h.1 h.2)
      (decode-image size valid c.value a payload rest h.1 ∙ c.shown a payload)
decode-encode_link size valid (res_frame d b v f a payload) rest h =
    let c = control_res_lem valid d b v f h.0 in
    rw (c.made, assemble-image size c.value a payload c.fits h.1 h.2)
      (decode-image size valid c.value a payload rest h.1 ∙ c.shown a payload)
