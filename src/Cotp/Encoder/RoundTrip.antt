-- ===== src/Cotp/Encoder/RoundTrip.antt =====
-- Data units that `encode` writes are what `decode` reads.
use hat_drivers.Base.{
  ℕ, suc, ◌+◌, ◌*◌, ◌/◌, ◌%◌, ◌^◌, ◌≤◌, ◌<◌, ◌≡◌, refl, sym, ap, ◌∙◌, arith, bit_and,
}
use hat_drivers.Base.{List, [], ◌∷◌, ◌++◌, length, length-append, take-append, drop-append, All}
use hat_drivers.Base.{Bool, true, false, not, ltb, leb, ◌==◌, lt→not-leb, le→not-ltb, if◌then◌else◌}
use hat_drivers.Base.{ok, ◌>>=◌}
use hat_drivers.Base.Bytes.{IsByte, to_bytes_lem}
use mathlib.Core.List.{append-nil}
use hat_drivers.Cotp.Encoder.{
  Tpdu, dt_tpdu, cr_tpdu, cc_tpdu, dr_tpdu, er_tpdu, TpduType, to_tpdu_type,
}
use hat_drivers.Cotp.Encoder.{encode_header, tpdu_data, encode}
use hat_drivers.Cotp.Encoder.{word_at, decode_tpdu, decode}
use hat_drivers.Cotp.Encoder.Fields.{
  IsTpdu, decode_parameters_lem, encode_parameters_lem, joined, parameters_image,
  parameters_image-IsByte, parameters_image-length, word_lem,
}

decode_lem :
    (code : ℕ) (rest payload : List ℕ) {t : TpduType}
    → length rest ≤ 253
    → to_tpdu_type (bit_and code 0xf0) ≡ ok t
    → decode (suc (length rest) ∷ code ∷ (rest ++ payload))
      ≡ decode_tpdu t (suc (length rest) ∷ code ∷ rest) payload
unfolding decode
decode_lem code rest payload h e =
    let n = length rest in
    let s : suc n + 1 ≡ suc (suc n) = omega arith in
    let l : leb (suc (suc (length (rest ++ payload)))) (suc n) ≡ false =
      lt→not-leb _ _ (omega (arith, length-append {0} rest payload)) in
    let g : ltb 254 (suc n) ≡ false = le→not-ltb 254 (suc n) (omega (arith, h)) in
    rw (l, g, s, e, take-append n rest payload refl, drop-append n rest payload refl) refl

flag_lem : (b : Bool) → not (bit_and (if b then 0x80 else 0) 0x80 == 0) ≡ b
flag_lem true = refl
flag_lem false = refl

flag-lt : (b : Bool) → (if b then 0x80 else 0) < 256
flag-lt true = omega arith
flag-lt false = omega arith

abbrev pub dt_image : Bool → List ℕ → List ℕ
dt_image eot payload = 2 ∷ 0xf0 ∷ (if eot then 0x80 else 0) ∷ payload

pub encode_dt :
    (eot : Bool) (payload : List ℕ)
    → All IsByte payload
    → encode (dt_tpdu eot payload) ≡ ok (dt_image eot payload)
unfolding encode encode_header tpdu_data
encode_dt eot payload h =
    to_bytes_lem (dt_image eot payload) (omega arith, (omega arith, (flag-lt eot, h)))

pub decode_dt :
    (eot : Bool) (payload : List ℕ) → decode (dt_image eot payload) ≡ ok (dt_tpdu eot payload)
unfolding decode_tpdu to_tpdu_type
decode_dt eot payload =
    decode_lem 0xf0 ((if eot then 0x80 else 0) ∷ []) payload (omega arith) refl
    ∙ rw (flag_lem eot) refl

decode_whole :
    (code : ℕ) (rest : List ℕ) {t : TpduType}
    → length rest ≤ 253
    → to_tpdu_type (bit_and code 0xf0) ≡ ok t
    → decode (suc (length rest) ∷ code ∷ rest) ≡ decode_tpdu t (suc (length rest) ∷ code ∷ rest) []
decode_whole code rest h e =
    ap (λ (l : List ℕ). decode (suc (length rest) ∷ code ∷ l)) (sym (append-nil rest))
    ∙ decode_lem code rest [] h e

cls_lem : (cls : ℕ) → cls * 2 ^ 4 / 2 ^ 4 ≡ cls
cls_lem cls = omega arith

-- What `encode` writes for a data unit, `decode` reads as the same. The references and selectors have 16 bits,
-- the class is below 16, the reason, the cause and the payload are bytes, the maximum size, if there is one,
-- is a power of two up to 2^255, and there is no preferred size.
pub decode-encode_tpdu : (tpdu : Tpdu) → IsTpdu tpdu → (encode tpdu >>= decode) ≡ ok tpdu
unfolding encode encode_header tpdu_data decode_tpdu to_tpdu_type word_at
decode-encode_tpdu (dt_tpdu eot payload) h = rw (encode_dt eot payload h) (decode_dt eot payload)
decode-encode_tpdu (cr_tpdu src cls p) (s, c, h) =
    let ps = parameters_image p in
    let body = 0 ∷ 0 ∷ (src / 256) ∷ (src % 256) ∷ (cls * 2 ^ 4) ∷ ps in
    let l = parameters_image-length p in
    rw (word_lem src s, encode_parameters_lem p h)
      (rw
        (
          append-nil ps,
          to_bytes_lem (suc (length body) ∷ 0xe0 ∷ body) (
            omega (arith, l),
            (
              omega arith,
              (
                omega arith,
                (
                  omega arith,
                  (
                    omega (arith, s),
                    (omega arith, (omega (arith, c), parameters_image-IsByte p h)),
                  ),
                ),
              ),
            ),
          ),
        )
        (decode_whole 0xe0 body (omega (arith, l)) refl
          ∙ rw
              (
                joined src s,
                decode_parameters_lem (suc (length (0xe0 ∷ body))) p h (omega arith),
                cls_lem cls,
              )
              refl))
decode-encode_tpdu (cc_tpdu dst src cls p) (d, s, c, h) =
    let ps = parameters_image p in
    let body = (dst / 256) ∷ (dst % 256) ∷ (src / 256) ∷ (src % 256) ∷ (cls * 2 ^ 4) ∷ ps in
    let l = parameters_image-length p in
    rw (word_lem dst d, word_lem src s, encode_parameters_lem p h)
      (rw
        (
          append-nil ps,
          to_bytes_lem (suc (length body) ∷ 0xd0 ∷ body) (
            omega (arith, l),
            (
              omega arith,
              (
                omega (arith, d),
                (
                  omega arith,
                  (
                    omega (arith, s),
                    (omega arith, (omega (arith, c), parameters_image-IsByte p h)),
                  ),
                ),
              ),
            ),
          ),
        )
        (decode_whole 0xd0 body (omega (arith, l)) refl
          ∙ rw
              (
                joined src s,
                joined dst d,
                decode_parameters_lem (suc (length (0xd0 ∷ body))) p h (omega arith),
                cls_lem cls,
              )
              refl))
decode-encode_tpdu (dr_tpdu dst src reason) (d, s, r) =
    let body = (dst / 256) ∷ (dst % 256) ∷ (src / 256) ∷ (src % 256) ∷ reason ∷ [] in
    rw (word_lem dst d, word_lem src s)
      (rw
        (to_bytes_lem (6 ∷ 0x80 ∷ body) (
          omega arith,
          (
            omega arith,
            (omega (arith, d), (omega arith, (omega (arith, s), (omega arith, (r, tt))))),
          ),
        ))
        (decode_whole 0x80 body (omega arith) refl ∙ rw (joined src s, joined dst d) refl))
decode-encode_tpdu (er_tpdu dst cause) (d, c) =
    let body = (dst / 256) ∷ (dst % 256) ∷ cause ∷ [] in
    rw (word_lem dst d) (
      rw
        (to_bytes_lem (4 ∷ 0x70 ∷ body)
          (omega arith, (omega arith, (omega (arith, d), (omega arith, (c, tt))))))
        (decode_whole 0x70 body (omega arith) refl ∙ rw (joined dst d) refl))
