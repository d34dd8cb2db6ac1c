-- ===== src/Apci/Encoder/RoundTrip.antt =====
-- `decode` reads back what `encode` writes.
use hat_drivers.Base.{ℕ, ◌+◌, ◌*◌, ◌/◌, ◌%◌, ◌≤◌, ◌<◌, ◌≡◌, refl, bit_and, arith}
use hat_drivers.Base.{List, [], ◌∷◌, ◌++◌, length, All, take-append}
use hat_drivers.Base.{ok, ◌>>=◌, false, ltb, le→not-ltb, suc, ap, ◌∙◌}
use hat_drivers.Base.Bits.{bit_and_low, bit_or_shifted}
use hat_drivers.Base.Bytes.{to_bytes_lem, IsByte}
use hat_drivers.Apci.Encoder.{
  ApduFunction, testfr_con, Apdu, apdui, apdus, apduu, function_value, to_function,
}
use hat_drivers.Apci.Encoder.{low_field, high_field, sequence_number, decode_fields, decode}
use hat_drivers.Apci.Encoder.{encode_fields, encode, IsApdu}

pub low_field_lem : (n : ℕ) → low_field n ≡ n % 128 * 2
unfolding low_field
low_field_lem n = omega (arith, bit_and_low 8 (n * 2))

pub high_field_lem : (n : ℕ) → n ≤ 0x7FFF → high_field n ≡ n / 128
unfolding high_field
high_field_lem n h = omega (arith, bit_and_low 8 (n / 128))

pub sequence_number_lem :
    (high low : ℕ) → low < 256 → sequence_number high low ≡ high * 128 + low / 2
unfolding sequence_number
sequence_number_lem high low h = omega (arith, bit_or_shifted 7 high (low / 2))

-- The two fields of a sequence number give it back.
pub sequence_number-fields : (n : ℕ) → n ≤ 0x7FFF → sequence_number (high_field n) (low_field n) ≡ n
sequence_number-fields n h =
    omega
      (arith, sequence_number_lem (high_field n) (low_field n), low_field_lem n, high_field_lem n)

-- A low field is even, so the format bits are those of an I frame.
low_field-bit : (n : ℕ) → bit_and (low_field n) 1 ≡ 0
low_field-bit n = omega (arith, bit_and_low 1 (low_field n), low_field_lem n)

pub fields-IsByte : (n : ℕ) → n ≤ 0x7FFF → (low_field n < 256) × (high_field n < 256)
fields-IsByte n h = omega (arith, low_field_lem n, high_field_lem n)

-- The bytes of an accepted APDU.
unfoldable pub body : Apdu → List ℕ
body (apdui ssn rsn payload) =
    low_field ssn ∷ high_field ssn ∷ low_field rsn ∷ high_field rsn ∷ payload
body (apdus rsn) = 1 ∷ 0 ∷ low_field rsn ∷ high_field rsn ∷ []
body (apduu f) = function_value f ∷ 0 ∷ 0 ∷ 0 ∷ []

unfoldable pub image : Apdu → List ℕ
image apdu = 0x68 ∷ length (body apdu) ∷ body apdu

function_value-IsByte : (f : ApduFunction) → function_value f < 256
unfolding function_value
function_value-IsByte testfr_con = omega arith
function_value-IsByte _ = omega arith

pub body-IsByte :
    (apdu : Apdu)
    → IsApdu apdu
    → All IsByte (body apdu) × (4 ≤ length (body apdu)) × (length (body apdu) ≤ 253)
unfolding body
body-IsByte (apdui ssn rsn payload) h =
    let a = fields-IsByte ssn h.0 in
    let b = fields-IsByte rsn h.1 in ((a.0, (a.1, (b.0, (b.1, h.3)))), omega arith, omega arith)
body-IsByte (apdus rsn) h =
    let b = fields-IsByte rsn h in
    ((omega arith, (omega arith, (b.0, (b.1, tt)))), omega arith, omega arith)
body-IsByte (apduu f) h = (
  (function_value-IsByte f, (omega arith, (omega arith, (omega arith, tt)))),
  omega arith,
  omega arith,
)

encode_fields-body : (apdu : Apdu) → IsApdu apdu → encode_fields apdu ≡ ok (body apdu)
unfolding encode_fields body
encode_fields-body (apdui ssn rsn payload) h = ground arith
encode_fields-body (apdus rsn) h = ground arith
encode_fields-body (apduu f) h = refl

pub encode-image : (apdu : Apdu) → IsApdu apdu → encode apdu ≡ ok (image apdu)
unfolding encode image
encode-image apdu h =
    let b = body-IsByte apdu h in
    rw (encode_fields-body apdu h)
      (to_bytes_lem (image apdu) (omega arith, (omega (arith, b.2), b.0)))

to_function-value : (f : ApduFunction) → to_function (function_value f) ≡ ok f
unfolding to_function function_value
to_function-value testfr_con = refl
to_function-value _ = refl

decode_fields-apduu :
    (f : ApduFunction) → decode_fields (function_value f ∷ 0 ∷ 0 ∷ 0 ∷ []) [] ≡ ok (apduu f)
unfolding decode_fields function_value
decode_fields-apduu testfr_con = refl
decode_fields-apduu _ = refl

decode_fields-apdus :
    (rsn : ℕ)
    → rsn ≤ 0x7FFF
    → decode_fields (1 ∷ 0 ∷ low_field rsn ∷ high_field rsn ∷ []) [] ≡ ok (apdus rsn)
unfolding decode_fields
decode_fields-apdus rsn h = ap (λ n. ok (apdus n)) (sequence_number-fields rsn h)

decode_fields-apdui :
    (ssn rsn : ℕ) (payload : List ℕ)
    → ssn ≤ 0x7FFF
    → rsn ≤ 0x7FFF
    → decode_fields (low_field ssn ∷ high_field ssn ∷ low_field rsn ∷ high_field rsn ∷ []) payload
      ≡ ok (apdui ssn rsn payload)
unfolding decode_fields
decode_fields-apdui ssn rsn payload h k =
    rw (low_field-bit ssn, sequence_number-fields ssn h, sequence_number-fields rsn k)

-- Behind a header of its size, `decode` sees the body alone.
decode-framed :
    (a b c d n : ℕ) (payload rest : List ℕ)
    → n ≡ length payload
    → decode (0x68 ∷ suc (suc (suc (suc n))) ∷ a ∷ b ∷ c ∷ d ∷ (payload ++ rest))
      ≡ decode_fields (a ∷ b ∷ c ∷ d ∷ []) payload
unfolding decode
decode-framed a b c d n payload rest h =
    let e : 2 + suc (suc (suc (suc n))) ≡ suc (suc (suc (suc (suc (suc n))))) = omega arith in
    let k : ltb (suc (suc (suc (suc n)))) 4 ≡ false = le→not-ltb _ 4 (omega arith) in
    rw (k, e, take-append n payload rest h)

pub decode-image :
    (apdu : Apdu) (rest : List ℕ) → IsApdu apdu → decode (image apdu ++ rest) ≡ ok apdu
unfolding image body
decode-image (apdui ssn rsn payload) rest h =
    decode-framed _ _ _ _ (length payload) payload rest refl
    ∙ decode_fields-apdui ssn rsn payload h.0 h.1
decode-image (apdus rsn) rest h = decode-framed _ _ _ _ 0 [] rest refl ∙ decode_fields-apdus rsn h
decode-image (apduu f) rest h = decode-framed _ _ _ _ 0 [] rest refl ∙ decode_fields-apduu f

-- `decode` reads back every APDU that `encode` accepts, and ignores what follows its bytes.
pub decode-encode :
    (apdu : Apdu) (rest : List ℕ)
    → IsApdu apdu
    → (encode apdu >>= λ bs. decode (bs ++ rest)) ≡ ok apdu
decode-encode apdu rest h = rw (encode-image apdu h) (decode-image apdu rest h)
