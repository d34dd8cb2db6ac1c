-- ===== src/Apci/Encoder/Errors.antt =====
-- What `encode` and `decode` accept and refuse.
use hat_drivers.Base.{ℕ, ◌+◌, ◌≤◌, ◌≡◌, ◌⊎◌, inl, inr, arith}
use hat_drivers.Base.{List, [], ◌∷◌, length, All, leb, Bool-cases, leb→le, ◌&&◌}
use hat_drivers.Base.{ok, err, value_error}
use hat_drivers.Base.Bytes.{slice, to_bytes, to_bytes_cases, IsByte, length-slice-le, All-slice}
use hat_drivers.Apci.Encoder.{Apdu, apdui, apdus, apduu}
use hat_drivers.Apci.Encoder.{decode_fields, decode}
use hat_drivers.Apci.Encoder.{encode_fields, encode, IsApdu}
use hat_drivers.Apci.Encoder.RoundTrip.{encode-image, image, sequence_number_lem, fields-IsByte}

-- `encode` returns bytes for exactly the APDUs of `IsApdu`, and raises `ValueError` on the others.
pub encode_cases :
    (apdu : Apdu)
    → (IsApdu apdu × (encode apdu ≡ ok (image apdu)))
      ⊎ ((¬ IsApdu apdu) × (encode apdu ≡ err value_error))
unfolding encode encode_fields to_bytes
encode_cases (apdui ssn rsn payload) =
    elim (Bool-cases (leb ssn 0x7FFF && leb rsn 0x7FFF && leb (length payload) 249)) [
      | inl t ↦ elim (to_bytes_cases payload) [
        | inl (p, e) ↦
            let h : IsApdu (apdui ssn rsn payload) =
              (ground arith, ground arith, ground arith, p) in
            inl (h, encode-image (apdui ssn rsn payload) h)
        | inr (p, e) ↦ inr ((λ k. p k.3), ground (arith, e, fields-IsByte ssn, fields-IsByte rsn))
      ]
      | inr t ↦ inr ((λ k. ground arith), ground arith)
    ]
encode_cases (apdus rsn) = elim (Bool-cases (leb rsn 0x7FFF)) [
  | inl t ↦ let h = leb→le rsn 0x7FFF t in inl (h, encode-image (apdus rsn) h)
  | inr t ↦ inr ((λ k. ground arith), ground arith)
]
encode_cases (apduu f) = inl (tt, encode-image (apduu f) tt)

-- Numbers that fit the two fields of the frame, and the most data that its size byte allows.
abbrev pub IsDecoded : Apdu → Type 0
IsDecoded (apdui ssn rsn payload) = (ssn ≤ 0x7FFF) × (rsn ≤ 0x7FFF) × (length payload ≤ 251)
IsDecoded (apdus rsn) = rsn ≤ 0x7FFF
IsDecoded (apduu f) = Unit

decode_fields-IsDecoded :
    (fields payload : List ℕ) {apdu : Apdu}
    → All IsByte fields
    → length payload ≤ 251
    → decode_fields fields payload ≡ ok apdu
    → IsDecoded apdu
unfolding decode_fields
decode_fields-IsDecoded [] payload h k e = ground arith
decode_fields-IsDecoded (a ∷ []) payload {apdu} h k e = ground arith
decode_fields-IsDecoded (a ∷ b ∷ []) payload {apdu} h k e = ground arith
decode_fields-IsDecoded (a ∷ b ∷ c ∷ []) payload {apdu} h k e = ground arith
decode_fields-IsDecoded (a ∷ b ∷ c ∷ d ∷ r) payload {apdu} h k e =
    ground (arith, sequence_number_lem b a, sequence_number_lem d c)

-- Whatever bytes arrive, an APDU that `decode` returns has sequence numbers of 15 bits and at most
-- 251 bytes of data.
pub decode-IsDecoded :
    (bs : List ℕ) {apdu : Apdu} → All IsByte bs → decode bs ≡ ok apdu → IsDecoded apdu
unfolding decode
decode-IsDecoded [] h e = cc
decode-IsDecoded (x ∷ []) h e = ground arith
decode-IsDecoded (x ∷ y ∷ r) {apdu} h e =
    let bs = x ∷ y ∷ r in
    ground (
      arith,
      length-slice-le 6 (2 + y) bs,
      decode_fields-IsDecoded (slice 2 6 bs) (slice 6 (2 + y) bs) {apdu = apdu}
          (All-slice IsByte 2 6 bs h),
    )
