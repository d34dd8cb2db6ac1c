-- ===== src/Cotp/Encoder/Fields.antt =====
-- The parameters of CR and CC: what `encode` writes and the loop of `decode` reads.
use hat_drivers.Base.{
  ℕ, zero, suc, ◌-◌, ◌*◌, ◌/◌, ◌%◌, ◌^◌, ◌≤◌, ◌<◌, ◌≡◌, refl, sym, ap, ◌∙◌, arith, bit_or,
}
use hat_drivers.Base.{
  List, [], ◌∷◌, ◌++◌, length, length-append, take-append, drop-append, All, All-append,
}
use hat_drivers.Base.{false, ◌==◌, lt→ltb}
use hat_drivers.Base.{Option, none, some, ok}
use hat_drivers.Base.Bytes.{IsByte, from_big}
use hat_drivers.Base.Bits.{bit_or_shifted}
use hat_drivers.Cotp.Encoder.{
  Parameters, Tpdu, dt_tpdu, cr_tpdu, cc_tpdu, dr_tpdu, er_tpdu, word, bit_length,
}
use hat_drivers.Cotp.Encoder.{encode_tsel, encode_max_tpdu, encode_pref_max_tpdu, encode_parameters}
use hat_drivers.Cotp.Encoder.{set_parameter, decode_parameters, no_parameters}

abbrev pub IsWord : ℕ → Type 0
IsWord x = x < 65536

abbrev pub IsTsel : Option ℕ → Type 0
IsTsel none = Unit
IsTsel (some tsel) = IsWord tsel

-- A power of two whose exponent is a byte
abbrev pub IsSize : Option ℕ → Type 0
IsSize none = Unit
IsSize (some size) =
    (1 ≤ bit_length size) × (bit_length size ≤ 256) × (2 ^ (bit_length size - 1) ≡ size)

-- No preferred size: `encode` gives it the tag of the other size.
abbrev pub IsParameters : Parameters → Type 0
IsParameters p =
    IsTsel p.calling_tsel × IsTsel p.called_tsel × IsSize p.max_tpdu × (p.pref_max_tpdu ≡ none)

abbrev pub IsTpdu : Tpdu → Type 0
IsTpdu (dt_tpdu eot payload) = All IsByte payload
IsTpdu (cr_tpdu src cls p) = IsWord src × (cls < 16) × IsParameters p
IsTpdu (cc_tpdu dst src cls p) = IsWord dst × IsWord src × (cls < 16) × IsParameters p
IsTpdu (dr_tpdu dst src reason) = IsWord dst × IsWord src × IsByte reason
IsTpdu (er_tpdu dst cause) = IsWord dst × IsByte cause

pub word_lem : (x : ℕ) → IsWord x → word x ≡ ok ((x / 256) ∷ (x % 256) ∷ [])
unfolding word
word_lem x h = rw (lt→ltb x 65536 h) refl

pub joined : (x : ℕ) → IsWord x → bit_or (x / 256 * 2 ^ 8) (x % 256) ≡ x
joined x h = bit_or_shifted 8 (x / 256) (x % 256) (omega arith) ∙ omega arith

not_zero : (n : ℕ) → 1 ≤ n → (n == 0) ≡ false
not_zero n h = ground arith

-- One parameter on both sides
abbrev tsel_image : ℕ → Option ℕ → List ℕ
tsel_image tag none = []
tsel_image tag (some tsel) = tag ∷ 2 ∷ (tsel / 256) ∷ (tsel % 256) ∷ []

abbrev size_image : Option ℕ → List ℕ
size_image none = []
size_image (some size) = 0xc0 ∷ 1 ∷ (bit_length size - 1) ∷ []

encode_tsel_lem : (tag : ℕ) (o : Option ℕ) → IsTsel o → encode_tsel tag o ≡ ok (tsel_image tag o)
unfolding encode_tsel
encode_tsel_lem tag none h = refl
encode_tsel_lem tag (some tsel) h = rw (word_lem tsel h) refl

encode_max_tpdu_lem : (o : Option ℕ) → IsSize o → encode_max_tpdu o ≡ ok (size_image o)
unfolding encode_max_tpdu
encode_max_tpdu_lem none h = refl
encode_max_tpdu_lem (some size) h =
    let e : (bit_length size == 0) ≡ false = not_zero (bit_length size) h.0 in rw e refl

parameter :
    (fuel k : ℕ) (v rest : List ℕ) (p q : Parameters)
    → set_parameter k v p ≡ ok q
    → decode_parameters (suc fuel) p (k ∷ length v ∷ (v ++ rest)) ≡ decode_parameters fuel q rest
unfolding decode_parameters
parameter fuel k v rest p q e =
    rw (take-append (length v) v rest refl, drop-append (length v) v rest refl, e) refl

-- A parameter leaves rounds enough for the rest.
abbrev Reaches : ℕ → Parameters → List ℕ → List ℕ → Parameters → Type 0
Reaches fuel p image rest q =
    (f : ℕ) × (length rest ≤ f)
    × (decode_parameters fuel p (image ++ rest) ≡ decode_parameters f q rest)

reads_calling :
    (fuel : ℕ) (o : Option ℕ) (rest : List ℕ)
    → IsTsel o
    → length (tsel_image 0xc1 o ++ rest) ≤ fuel
    → Reaches fuel no_parameters
        (tsel_image 0xc1 o)
        rest
        (record no_parameters { calling_tsel = o })
unfolding set_parameter
reads_calling fuel none rest h k = (fuel, k, refl)
reads_calling zero (some tsel) rest h k = absurd (omega arith)
reads_calling (suc fuel) (some tsel) rest h k =
    let e : from_big 0 ((tsel / 256) ∷ (tsel % 256) ∷ []) ≡ tsel = omega arith in
    (
      fuel,
      omega (arith, k),
      parameter fuel 0xc1 ((tsel / 256) ∷ (tsel % 256) ∷ []) rest no_parameters
          (record no_parameters { calling_tsel = some tsel })
          (ap (λ x. ok (record no_parameters { calling_tsel = some x })) e),
    )

reads_called :
    (fuel : ℕ) (p : Parameters) (o : Option ℕ) (rest : List ℕ)
    → p.called_tsel ≡ none
    → IsTsel o
    → length (tsel_image 0xc2 o ++ rest) ≤ fuel
    → Reaches fuel p (tsel_image 0xc2 o) rest (record p { called_tsel = o })
unfolding set_parameter
reads_called fuel p none rest n h k =
    (fuel, k, ap (λ o. decode_parameters fuel (record p { called_tsel = o }) rest) n)
reads_called zero p (some tsel) rest n h k = absurd (omega arith)
reads_called (suc fuel) p (some tsel) rest n h k =
    let e : from_big 0 ((tsel / 256) ∷ (tsel % 256) ∷ []) ≡ tsel = omega arith in
    (
      fuel,
      omega (arith, k),
      parameter fuel 0xc2 ((tsel / 256) ∷ (tsel % 256) ∷ []) rest p
          (record p { called_tsel = some tsel })
          (ap (λ x. ok (record p { called_tsel = some x })) e),
    )

reads_size :
    (fuel : ℕ) (p : Parameters) (o : Option ℕ) (rest : List ℕ)
    → p.max_tpdu ≡ none
    → IsSize o
    → length (size_image o ++ rest) ≤ fuel
    → Reaches fuel p (size_image o) rest (record p { max_tpdu = o })
unfolding set_parameter
reads_size fuel p none rest n h k =
    (fuel, k, ap (λ o. decode_parameters fuel (record p { max_tpdu = o }) rest) n)
reads_size zero p (some size) rest n h k = absurd (omega arith)
reads_size (suc fuel) p (some size) rest n h k = (
  fuel,
  omega (arith, k),
  parameter fuel 0xc0 ((bit_length size - 1) ∷ []) rest p (record p { max_tpdu = some size })
      (ap (λ x. ok (record p { max_tpdu = some x })) h.2),
)

abbrev pub parameters_image : Parameters → List ℕ
parameters_image p =
    tsel_image 0xc1 p.calling_tsel
    ++ (tsel_image 0xc2 p.called_tsel ++ (size_image p.max_tpdu ++ []))

pub encode_parameters_lem :
    (p : Parameters) → IsParameters p → encode_parameters p ≡ ok (parameters_image p)
unfolding encode_parameters encode_pref_max_tpdu
encode_parameters_lem p h =
    rw
      (
        encode_tsel_lem 0xc1 p.calling_tsel h.0,
        encode_tsel_lem 0xc2 p.called_tsel h.1,
        encode_max_tpdu_lem p.max_tpdu h.2,
        h.3,
      )
      refl

done : (fuel : ℕ) (p : Parameters) → decode_parameters fuel p [] ≡ ok p
unfolding decode_parameters
done fuel p = refl

pub decode_parameters_lem :
    (fuel : ℕ) (p : Parameters)
    → IsParameters p
    → length (parameters_image p) ≤ fuel
    → decode_parameters fuel no_parameters (parameters_image p) ≡ ok p
decode_parameters_lem fuel p h k =
    let last = size_image p.max_tpdu ++ [] in
    let a = reads_calling fuel p.calling_tsel (tsel_image 0xc2 p.called_tsel ++ last) h.0 k in
    let b =
      reads_called a.0 (record no_parameters { calling_tsel = p.calling_tsel }) p.called_tsel last
        refl h.1 a.1 in
    let c =
      reads_size b.0
        (record no_parameters { calling_tsel = p.calling_tsel; called_tsel = p.called_tsel })
        p.max_tpdu [] refl h.2 b.1 in
    a.2 ∙ (b.2 ∙ (c.2 ∙ (done c.0 _ ∙ ap (λ o. ok (record p { pref_max_tpdu = o })) (sym h.3))))

tsel_image-length : (tag : ℕ) (o : Option ℕ) → length (tsel_image tag o) ≤ 4
tsel_image-length tag none = omega arith
tsel_image-length tag (some tsel) = omega arith

size_image-length : (o : Option ℕ) → length (size_image o) ≤ 3
size_image-length none = omega arith
size_image-length (some size) = omega arith

pub parameters_image-length : (p : Parameters) → length (parameters_image p) ≤ 11
parameters_image-length p =
    let last = size_image p.max_tpdu ++ [] in
    omega (
      arith,
      tsel_image-length 0xc1 p.calling_tsel,
      tsel_image-length 0xc2 p.called_tsel,
      size_image-length p.max_tpdu,
      length-append {0} (tsel_image 0xc1 p.calling_tsel) (tsel_image 0xc2 p.called_tsel ++ last),
      length-append {0} (tsel_image 0xc2 p.called_tsel) last,
      length-append {0} (size_image p.max_tpdu) [],
    )

tsel_image-IsByte : (tag : ℕ) (o : Option ℕ) → IsByte tag → IsTsel o → All IsByte (tsel_image tag o)
tsel_image-IsByte tag none b h = tt
tsel_image-IsByte tag (some tsel) b h = (b, (omega arith, (omega (arith, h), (omega arith, tt))))

size_image-IsByte : (o : Option ℕ) → IsSize o → All IsByte (size_image o)
size_image-IsByte none h = tt
size_image-IsByte (some size) h = (omega arith, (omega arith, (omega (arith, h.0, h.1), tt)))

pub parameters_image-IsByte : (p : Parameters) → IsParameters p → All IsByte (parameters_image p)
parameters_image-IsByte p h =
    All-append IsByte (tsel_image 0xc1 p.calling_tsel) _
      (tsel_image-IsByte 0xc1 p.calling_tsel (omega arith) h.0)
      (All-append IsByte (tsel_image 0xc2 p.called_tsel) _
        (tsel_image-IsByte 0xc2 p.called_tsel (omega arith) h.1)
        (All-append IsByte (size_image p.max_tpdu) [] (size_image-IsByte p.max_tpdu h.2) tt))
