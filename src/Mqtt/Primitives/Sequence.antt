-- ===== src/Mqtt/Primitives/Sequence.antt =====
-- Encoders one after another, and the decoders that read what each has written.
use hat_drivers.Base.{
  ℕ, zero, suc, ◌≤◌, ◌≡◌, refl, sym, ap, ◌∙◌, arith, List, [], ◌∷◌, ◌++◌, length,
}
use hat_drivers.Base.{
  length-append, All, All-append, Bool, true, Exn, Result, ok, err, ◌>>=◌, ◌>>◌, guard,
}
use hat_drivers.Base.Bytes.{IsByte}
use mathlib.Core.List.{append_assoc, append-nil}
use hat_drivers.Mqtt.Primitives.{◌+>◌, encode_all, decode_all}
use hat_drivers.Mqtt.Primitives.RoundTrip.{Reads}

-- What is written is read back where nothing follows it.
pub record Whole {ℓ} {A : Type ℓ} (written : Result (List ℕ)) (read : List ℕ → Result (A × List ℕ))
    (a : A) : Type ℓ where
  pub image : List ℕ
  pub writes : written ≡ ok image
  pub reads : read image ≡ ok (a, [])
  pub are_bytes : All IsByte image

pub Reads-Whole {ℓ} :
    {A : Type ℓ} {w : Result (List ℕ)} {read : List ℕ → Result (A × List ℕ)} {a : A}
    → Reads w read a
    → Whole w read a
Reads-Whole {read = read} r = record {
  image = r.image;
  writes = r.writes;
  reads = ap read (sym (append-nil r.image)) ∙ r.reads [];
  are_bytes = r.are_bytes;
}

pub then-Reads {ℓ κ} :
    {A : Type ℓ} {B : Type κ} {w w' : Result (List ℕ)} {read : List ℕ → Result (A × List ℕ)} {a : A}
    {b : B} (next : A × List ℕ → Result (B × List ℕ))
    → Reads w read a
    → Reads w' (λ rest. next (a, rest)) b
    → Reads (w +> w') (λ bs. read bs >>= next) b
then-Reads {read = read} next r q = record {
  image = r.image ++ q.image;
  writes = rw (r.writes, q.writes);
  reads = λ rest. rw (append_assoc r.image q.image rest, r.reads (q.image ++ rest)) (q.reads rest);
  are_bytes = All-append IsByte r.image q.image r.are_bytes q.are_bytes;
}

pub then-Whole {ℓ κ} :
    {A : Type ℓ} {B : Type κ} {w w' : Result (List ℕ)} {read : List ℕ → Result (A × List ℕ)} {a : A}
    {b : B} (next : A × List ℕ → Result (B × List ℕ))
    → Reads w read a
    → Whole w' (λ rest. next (a, rest)) b
    → Whole (w +> w') (λ bs. read bs >>= next) b
then-Whole {read = read} next r q = record {
  image = r.image ++ q.image;
  writes = rw (r.writes, q.writes);
  reads = rw (r.reads q.image) (q.reads);
  are_bytes = All-append IsByte r.image q.image r.are_bytes q.are_bytes;
}

-- The last step of a decoder
pub last-Reads {ℓ κ} :
    {A : Type ℓ} {B : Type κ} {w : Result (List ℕ)} {read : List ℕ → Result (A × List ℕ)} {a : A}
    {b : B} (next : A × List ℕ → Result (B × List ℕ))
    → Reads w read a
    → ((rest : List ℕ) → next (a, rest) ≡ ok (b, rest))
    → Reads w (λ bs. read bs >>= next) b
last-Reads {read = read} next r e = record {
  image = r.image;
  writes = r.writes;
  reads = λ rest. rw (r.reads rest) (e rest);
  are_bytes = r.are_bytes;
}

pub guard-Reads {ℓ} :
    {A : Type ℓ} {w : Result (List ℕ)} {b : Bool} {read : List ℕ → Result (A × List ℕ)} {a : A}
    (e : Exn)
    → b ≡ true
    → Reads w read a
    → Reads w (λ bs. guard b e >> read bs) a
guard-Reads {read = read} e h r = record {
  image = r.image;
  writes = r.writes;
  reads = λ rest. rw h (r.reads rest);
  are_bytes = r.are_bytes;
}

module _ {A : Type 0} (write : A → Result (List ℕ)) (read : List ℕ → Result (A × List ℕ)) where
  -- An item takes a byte at least.
  abbrev pub Item : A → Type 0
  Item a = (r : Reads (write a) read a) × (1 ≤ length r.image)

  positive :
      (image : List ℕ) {a : A} {e : Exn}
      → read [] ≡ err e
      → read (image ++ []) ≡ ok (a, [])
      → 1 ≤ length image
  positive [] h k = cc
  positive (x ∷ image) h k = omega arith

  -- An item that cannot be read from nothing takes a byte at least.
  pub Reads-Item : (a : A) {e : Exn} → read [] ≡ err e → Reads (write a) read a → Item a
  Reads-Item a h r = (r, positive r.image h (r.reads []))

  record Items (items : List A) : Type 0 where
    image : List ℕ
    writes : encode_all write items ≡ ok image
    reads : (fuel : ℕ) → length image ≤ fuel → decode_all read fuel image ≡ ok items
    are_bytes : All IsByte image

  one_round :
      (b : List ℕ) (rest : List ℕ) (a : A) (items : List A) (fuel : ℕ)
      → 1 ≤ length b
      → length (b ++ rest) ≤ fuel
      → read (b ++ rest) ≡ ok (a, rest)
      → ((f : ℕ) → length rest ≤ f → decode_all read f rest ≡ ok items)
      → decode_all read fuel (b ++ rest) ≡ ok (a ∷ items)
  unfolding decode_all
  one_round [] rest a items fuel h k e g = absurd (omega arith)
  one_round (x ∷ b) rest a items zero h k e g = absurd (omega arith)
  one_round (x ∷ b) rest a items (suc fuel) h k e g =
      rw (e, g fuel (omega (arith, length-append {0} b rest))) refl

  all-Items : (items : List A) → All Item items → Items items
  unfolding encode_all decode_all
  all-Items [] hs = record { image = []; writes = refl; reads = λ fuel k. refl; are_bytes = tt }
  all-Items (a ∷ items) (h, hs) =
      let r = h.0 in
      let q = all-Items items hs in
      record {
        image = r.image ++ q.image;
        writes = rw (r.writes, q.writes);
        reads = λ fuel k. one_round r.image q.image a items fuel h.1 k (r.reads q.image) q.reads;
        are_bytes = All-append IsByte r.image q.image r.are_bytes q.are_bytes;
      }

  pub all-Whole {ℓ} :
      {B : Type ℓ} (items : List A) {b : B} (next : List A → Result (B × List ℕ))
      → All Item items
      → next items ≡ ok (b, [])
      → Whole (encode_all write items) (λ bs. decode_all read (length bs) bs >>= next) b
  all-Whole items next hs e =
      let q = all-Items items hs in
      record {
        image = q.image;
        writes = q.writes;
        reads = rw (q.reads (length q.image) (omega arith), e) refl;
        are_bytes = q.are_bytes;
      }
