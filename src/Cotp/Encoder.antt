-- ===== src/Cotp/Encoder.antt =====
-- src_py/hat/drivers/cotp/common.py and cotp/encoder.py: transport protocol data units.
pub mod Fields
pub mod RoundTrip
use hat_drivers.Base.{
  ℕ, zero, suc, ◌+◌, ◌-◌, ◌*◌, ◌/◌, ◌%◌, ◌^◌, max, bit_and, bit_or, List, [], ◌∷◌, ◌++◌,
}
use hat_drivers.Base.{
  length, take, drop, Bool, true, false, not, ltb, leb, ◌==◌, ◌||◌, if◌then◌else◌,
}
use hat_drivers.Base.{Option, none, some, Result, ok, err, ◌>>=◌, ◌>>◌, guard}
use hat_drivers.Base.{value_error, index_error, overflow_error, stuck}
use hat_drivers.Base.Bytes.{at, to_bytes, from_big}

-- What CR and CC have in common behind the references
pub record Parameters : Type 0 where
  pub calling_tsel : Option ℕ
  pub called_tsel : Option ℕ
  pub max_tpdu : Option ℕ
  pub pref_max_tpdu : Option ℕ

pub data Tpdu : Type 0 where
  dt_tpdu : (eot : Bool) (payload : List ℕ) → Tpdu
  cr_tpdu : (src cls : ℕ) (parameters : Parameters) → Tpdu
  cc_tpdu : (dst src cls : ℕ) (parameters : Parameters) → Tpdu
  dr_tpdu : (dst src reason : ℕ) → Tpdu
  er_tpdu : (dst cause : ℕ) → Tpdu

pub data TpduType : Type 0 where
  dt_type cr_type cc_type dr_type er_type : TpduType

unfoldable pub to_tpdu_type : ℕ → Result TpduType
to_tpdu_type v =
    if v == 0xf0
    then ok dt_type
    else if v == 0xe0
    then ok cr_type
    else if v == 0xd0
    then ok cc_type
    else if v == 0x80
    then ok dr_type
    else if v == 0x70
    then ok er_type
    else err value_error

-- `x.to_bytes(2, 'big')`
unfoldable pub word : ℕ → Result (List ℕ)
word x = if ltb x 65536 then ok ((x / 256) ∷ (x % 256) ∷ []) else err overflow_error

-- `x.bit_length()`; a number has as many bits as it is large at most.
unfoldable pub bits : ℕ → ℕ → ℕ
bits zero x = 0
bits (suc fuel) x = elim (x == 0) [ true ↦ 0 | false ↦ bits fuel (x / 2) + 1 ]

unfoldable pub bit_length : ℕ → ℕ
unfolding bits
bit_length x = bits x x

-- `x.to_bytes(size, 'big')` where `x` has no more bytes
unfoldable pub big_bytes : ℕ → ℕ → List ℕ
big_bytes zero x = []
big_bytes (suc size) x = big_bytes size (x / 256) ++ (x % 256) ∷ []

unfoldable pub uint_to_bebytes : ℕ → List ℕ
unfolding big_bytes bit_length
uint_to_bebytes x = big_bytes (max ((bit_length x + 7) / 8) 1) x

unfoldable pub encode_tsel : ℕ → Option ℕ → Result (List ℕ)
unfolding word
encode_tsel tag none = ok []
encode_tsel tag (some tsel) = do bs ← word tsel; ok (tag ∷ 2 ∷ bs)

-- `bit_length() - 1` of 0 is no byte.
unfoldable pub encode_max_tpdu : Option ℕ → Result (List ℕ)
unfolding bit_length
encode_max_tpdu none = ok []
encode_max_tpdu (some size) = do
  guard (not (bit_length size == 0)) value_error
  ok (0xc0 ∷ 1 ∷ (bit_length size - 1) ∷ [])

unfoldable pub encode_pref_max_tpdu : Option ℕ → List ℕ
unfolding uint_to_bebytes
encode_pref_max_tpdu none = []
encode_pref_max_tpdu (some size) = let bs = uint_to_bebytes (size / 128) in 0xc0 ∷ length bs ∷ bs

unfoldable pub encode_parameters : Parameters → Result (List ℕ)
unfolding encode_tsel encode_max_tpdu encode_pref_max_tpdu
encode_parameters p = do
  calling ← encode_tsel 0xc1 p.calling_tsel
  called ← encode_tsel 0xc2 p.called_tsel
  size ← encode_max_tpdu p.max_tpdu
  ok (calling ++ (called ++ (size ++ encode_pref_max_tpdu p.pref_max_tpdu)))

-- `header` behind the length
unfoldable pub encode_header : Tpdu → Result (List ℕ)
unfolding word encode_parameters
encode_header (dt_tpdu eot payload) = ok (0xf0 ∷ (if eot then 0x80 else 0) ∷ [])
encode_header (cr_tpdu src cls parameters) = do
  s ← word src
  ps ← encode_parameters parameters
  ok (0xe0 ∷ 0 ∷ 0 ∷ s ++ ((cls * 2 ^ 4) ∷ ps))
encode_header (cc_tpdu dst src cls parameters) = do
  d ← word dst
  s ← word src
  ps ← encode_parameters parameters
  ok (0xd0 ∷ d ++ (s ++ ((cls * 2 ^ 4) ∷ ps)))
encode_header (dr_tpdu dst src reason) = do
  d ← word dst
  s ← word src
  ok (0x80 ∷ d ++ (s ++ (reason ∷ [])))
encode_header (er_tpdu dst cause) = do d ← word dst; ok (0x70 ∷ d ++ (cause ∷ []))

unfoldable pub tpdu_data : Tpdu → List ℕ
tpdu_data (dt_tpdu eot payload) = payload
tpdu_data _ = []

unfoldable pub encode : Tpdu → Result (List ℕ)
unfolding encode_header tpdu_data
encode tpdu = do header ← encode_header tpdu; to_bytes (length header ∷ header ++ tpdu_data tpdu)

-- One parameter
unfoldable pub set_parameter : ℕ → List ℕ → Parameters → Result Parameters
set_parameter k v p =
    if k == 0xc1
    then ok (record p { calling_tsel = some (from_big 0 v) })
    else if k == 0xc2
    then ok (record p { called_tsel = some (from_big 0 v) })
    else if k == 0xc0
    then (at v 0 >>= λ b. ok (record p { max_tpdu = some (2 ^ b) }))
    else if k == 0xf0
    then ok (record p { pref_max_tpdu = some (128 * from_big 0 v) })
    else ok p

-- `while vp_data`; each round takes two bytes at least.
unfoldable pub decode_parameters : ℕ → Parameters → List ℕ → Result Parameters
unfolding set_parameter
decode_parameters fuel p [] = ok p
decode_parameters fuel p (k ∷ []) = err index_error
decode_parameters zero p (k ∷ size ∷ bs) = err stuck
decode_parameters (suc fuel) p (k ∷ size ∷ bs) = do
  p' ← set_parameter k (take size bs) p
  decode_parameters fuel p' (drop size bs)

abbrev pub no_parameters : Parameters
no_parameters = record {
  calling_tsel = none;
  called_tsel = none;
  max_tpdu = none;
  pref_max_tpdu = none;
}

unfoldable pub word_at : List ℕ → ℕ → Result ℕ
word_at header i = do high ← at header i; low ← at header (i + 1); ok (bit_or (high * 2 ^ 8) low)

unfoldable pub decode_tpdu : TpduType → List ℕ → List ℕ → Result Tpdu
unfolding word_at decode_parameters
decode_tpdu dt_type header payload = do
  flags ← at header 2
  ok (dt_tpdu (not (bit_and flags 0x80 == 0)) payload)
decode_tpdu cr_type header payload = do
  src ← word_at header 4
  cls ← at header 6
  ps ← decode_parameters (length header) no_parameters (drop 7 header)
  ok (cr_tpdu src (cls / 2 ^ 4) ps)
decode_tpdu cc_type header payload = do
  src ← word_at header 4
  dst ← word_at header 2
  cls ← at header 6
  ps ← decode_parameters (length header) no_parameters (drop 7 header)
  ok (cc_tpdu dst src (cls / 2 ^ 4) ps)
decode_tpdu dr_type header payload = do
  src ← word_at header 4
  dst ← word_at header 2
  reason ← at header 6
  ok (dr_tpdu dst src reason)
decode_tpdu er_type header payload = do
  dst ← word_at header 2
  cause ← at header 4
  ok (er_tpdu dst cause)

unfoldable pub decode : List ℕ → Result Tpdu
unfolding decode_tpdu to_tpdu_type
decode bs = do
  length_indicator ← at bs 0
  guard (not (leb (length bs) length_indicator || ltb 254 length_indicator)) value_error
  let header = take (length_indicator + 1) bs
  code ← at header 1
  t ← to_tpdu_type (bit_and code 0xf0)
  decode_tpdu t header (drop (length_indicator + 1) bs)
