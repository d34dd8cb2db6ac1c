-- ===== src/Cotp/Connection/Handshake.antt =====
-- Both sides of a new connection agree.
use hat_drivers.Base.{
  ℕ, ◌≡◌, refl, List, Option, none, some, Result, ok, ◌>>=◌, ==-refl, true, arith, Result-cases,
  inl, inr,
}
use hat_drivers.Cotp.Encoder.{cr_tpdu, cc_tpdu, Tpdu, encode, decode, bit_length, bits}
use hat_drivers.Cotp.Encoder.Fields.{IsWord, IsTsel, IsParameters, IsTpdu}
use hat_drivers.Cotp.Encoder.RoundTrip.{decode-encode_tpdu}
use hat_drivers.Cotp.Connection.{
  agree, truthy, calculate_max_tpdu, calculate_cc_max_tpdu, or_else, Opened,
}
use hat_drivers.Cotp.Connection.{
  request_parameters, connect_request, connected, accept_response, accept_request, on_connection,
}

agree_refl : (o : Option ℕ) → agree o o ≡ true
unfolding agree
agree_refl none = refl
agree_refl (some a) = ==-refl a

pub or_else_idem : (o : Option ℕ) → or_else o o ≡ o
unfolding or_else
or_else_idem none = refl
or_else_idem (some n) = refl

request_parameters-IsParameters :
    (local_tsel remote_tsel : Option ℕ)
    → IsTsel local_tsel
    → IsTsel remote_tsel
    → IsParameters (request_parameters local_tsel remote_tsel)
unfolding bit_length bits
request_parameters-IsParameters local_tsel remote_tsel h k =
    (h, k, (omega arith, omega arith, refl), refl)

-- The start of a connection: the request goes to the server, and its response to the client.
unfoldable pub handshake : ℕ → ℕ → Option ℕ → Option ℕ → Result (Opened × Opened)
handshake src next_src local_tsel remote_tsel = do
  cr_tpdu_bytes ← connect_request src local_tsel remote_tsel
  (cc_tpdu_bytes, server) ← on_connection next_src cr_tpdu_bytes
  client ← accept_response src local_tsel remote_tsel cc_tpdu_bytes
  ok (client, server)

pub encoded : (t : Tpdu) → IsTpdu t → (bs : List ℕ) × (encode t ≡ ok bs) × (decode bs ≡ ok t)
encoded t h = elim (Result-cases (encode t)) [
  | inl (bs, e) ↦ (bs, e, rw e at (decode-encode_tpdu t h))
  | inr (x, e) ↦ absurd (cc (rw e at (decode-encode_tpdu t h)))
]

-- For references and selectors of 16 bits, the start of a connection succeeds, and both sides have the size
-- 2048 and the same two selectors, the client's own being the server's remote one.
pub handshake_lem :
    (src next_src : ℕ) (local_tsel remote_tsel : Option ℕ)
    → IsWord src
    → IsWord next_src
    → IsTsel local_tsel
    → IsTsel remote_tsel
    → handshake src next_src local_tsel remote_tsel
      ≡ ok (
        record { max_tpdu = some 2048; local_tsel = local_tsel; remote_tsel = remote_tsel },
        record { max_tpdu = some 2048; local_tsel = remote_tsel; remote_tsel = local_tsel },
      )
unfolding handshake connect_request on_connection accept_request accept_response connected
    calculate_max_tpdu calculate_cc_max_tpdu truthy
handshake_lem src next_src l r h k a b =
    let p = request_parameters l r in
    let e = encoded (cr_tpdu src 0 p) (h, omega arith, request_parameters-IsParameters l r a b) in
    let f =
      encoded (cc_tpdu src next_src 0 p)
        (h, k, omega arith, request_parameters-IsParameters l r a b) in
    rw (e.1) (
      rw (e.2) (
        rw (f.1) (
          rw (f.2)
            (rw (agree_refl l, agree_refl r, ==-refl src, or_else_idem l, or_else_idem r) refl))))
