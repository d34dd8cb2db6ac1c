-- ===== src/Mqtt/Properties/RoundTrip.antt =====
-- `_encode_props` and `_decode_props`: a dictionary of properties comes back.
use hat_drivers.Base.{
  ℕ, ◌≤◌, ◌≡◌, refl, sym, ap, ◌∙◌, arith, List, [], ◌∷◌, ◌++◌, length, length-append,
}
use hat_drivers.Base.{
  take-append, drop-append, All, All-append, Bool, true, false, not, ◌==◌, ◌&&◌, ◌||◌,
}
use hat_drivers.Base.{
  ltb, le→not-ltb, if◌then◌else◌, Option, none, some, Result, ok, err, ◌>>=◌, Bool-cases, inl, inr,
}
use hat_drivers.Base.Bytes.{IsByte}
use mathlib.Core.Path.{fun_ext}
use mathlib.Core.List.{append_assoc, append-nil}
use hat_drivers.Mqtt.Primitives.RoundTrip.{Reads, uintvar-Reads}
use hat_drivers.Mqtt.Properties.{
  PropertyType, property_value, Kind, kind, Value, number, text, binary,
}
use hat_drivers.Mqtt.Properties.{
  quality, identifiers, text_pairs, Props, Options, collect, mentions, same_type,
}
use hat_drivers.Mqtt.Properties.{
  flag_kind, uint16_kind, positive16_kind, uint32_kind, positive32_kind,
}
use hat_drivers.Mqtt.Properties.{string_kind, binary_kind, identifiers_kind, qos_kind, pairs_kind}
use hat_drivers.Mqtt.Properties.{
  get, has, encode_entries, encode_props, decode_entries, decode_props,
}
use hat_drivers.Mqtt.Properties.Steps.{FitsSingle}
use hat_drivers.Mqtt.Properties.Entry.{Entry, single-Entry}
use hat_drivers.Mqtt.Properties.Repeated.{identifiers-Entry, pairs-Entry, IsIdentifier, IsPair}

-- The values that a property of a kind can carry: numbers in range, UTF-8 of at most 65535 bytes; a list
-- has an element at least.
abbrev pub Fits : Kind → Value → Type 0
Fits identifiers_kind (identifiers (i ∷ numbers)) = All IsIdentifier (i ∷ numbers)
Fits pairs_kind (text_pairs (p ∷ pairs)) = All IsPair (p ∷ pairs)
Fits k v = FitsSingle k v

kind-Entry :
    (valid : List PropertyType) (t : PropertyType) (k : Kind) (v : Value)
    → kind t ≡ k
    → mentions t valid ≡ true
    → Fits k v
    → Entry valid t v
kind-Entry valid t flag_kind (number n) e m h = single-Entry valid t (number n) m (rw e h)
kind-Entry valid t uint16_kind (number n) e m h = single-Entry valid t (number n) m (rw e h)
kind-Entry valid t positive16_kind (number n) e m h = single-Entry valid t (number n) m (rw e h)
kind-Entry valid t uint32_kind (number n) e m h = single-Entry valid t (number n) m (rw e h)
kind-Entry valid t positive32_kind (number n) e m h = single-Entry valid t (number n) m (rw e h)
kind-Entry valid t string_kind (text s) e m h = single-Entry valid t (text s) m (rw e h)
kind-Entry valid t binary_kind (binary bs) e m h = single-Entry valid t (binary bs) m (rw e h)
kind-Entry valid t qos_kind (quality q) e m h = single-Entry valid t (quality q) m (rw e h)
kind-Entry valid t identifiers_kind (identifiers (i ∷ numbers)) e m h =
    identifiers-Entry valid t e i numbers m h
kind-Entry valid t pairs_kind (text_pairs (p ∷ pairs)) e m h = pairs-Entry valid t e p pairs m h
kind-Entry valid t _ _ e m h = absurd h

abbrev pub FitsOption : PropertyType → Option Value → Type 0
FitsOption t none = Unit
FitsOption t (some v) = Fits (kind t) v

abbrev pub FitsAll : Options → Type 0
FitsAll [] = Unit
FitsAll ((t, o) ∷ options) = FitsOption t o × FitsAll options

-- Types that stand once each, all of them valid
unfoldable pub lacks : PropertyType → Options → Bool
unfolding same_type
lacks t [] = true
lacks t ((u, o) ∷ options) = not (same_type u t) && lacks t options

unfoldable pub is_listed : List PropertyType → Options → Bool
unfolding lacks mentions same_type
is_listed valid [] = true
is_listed valid ((t, o) ∷ options) =
    mentions t valid && (lacks t options && is_listed valid options)

unfoldable fresh : Props → Options → Bool
unfolding has
fresh props [] = true
fresh props ((t, o) ∷ options) = not (has props t) && fresh props options

or_false : (b : Bool) → (b || false) ≡ b
or_false true = refl
or_false false = refl

or_assoc : (a b c : Bool) → (a || (b || c)) ≡ ((a || b) || c)
or_assoc true b c = refl
or_assoc false b c = refl

has-append :
    (props : Props) (t u : PropertyType) (v : Value)
    → has (props ++ (t, v) ∷ []) u ≡ (has props u || same_type u t)
unfolding has
has-append [] t u v = or_false (same_type u t)
has-append ((w, x) ∷ props) t u v =
    ap (λ b. same_type u w || b) (has-append props t u v)
    ∙ or_assoc (same_type u w) (has props u) (same_type u t)

neither :
    (a b : Bool) {c d e : Bool}
    → (not a && c) ≡ true
    → (not b && d) ≡ true
    → (c ≡ true → d ≡ true → e ≡ true)
    → (not (a || b) && e) ≡ true
neither false false h k f = f h k
neither true b h k f = absurd (cc)
neither false true h k f = absurd (cc)

fresh-append :
    (props : Props) (t : PropertyType) (v : Value) (options : Options)
    → fresh props options ≡ true
    → lacks t options ≡ true
    → fresh (props ++ (t, v) ∷ []) options ≡ true
unfolding fresh lacks
fresh-append props t v [] h k = refl
fresh-append props t v ((u, o) ∷ options) h k =
    ap (λ b. not b && fresh (props ++ (t, v) ∷ []) options) (has-append props t u v)
    ∙ neither (has props u) (same_type u t) h k (fresh-append props t v options)

record Entries (valid : List PropertyType) (options : Options) : Type 0 where
  image : List ℕ
  writes : encode_entries (collect options) ≡ ok image
  are_bytes : All IsByte image
  run :
      (fuel : ℕ) (props : Props)
      → fresh props options ≡ true
      → length image ≤ fuel
      → decode_entries fuel valid props image ≡ ok (props ++ collect options)

fresh-tail :
    (props : Props) (t : PropertyType) (o : Option Value) (options : Options)
    → fresh props ((t, o) ∷ options) ≡ true
    → fresh props options ≡ true
unfolding fresh
fresh-tail props t o options h = ground (arith, h)

fresh-head :
    (props : Props) (t : PropertyType) (o : Option Value) (options : Options)
    → fresh props ((t, o) ∷ options) ≡ true
    → has props t ≡ false
unfolding fresh
fresh-head props t o options h = ground (arith, h)

listed-split :
    (valid : List PropertyType) (t : PropertyType) (o : Option Value) (options : Options)
    → is_listed valid ((t, o) ∷ options) ≡ true
    → (mentions t valid ≡ true) × (lacks t options ≡ true) × (is_listed valid options ≡ true)
unfolding is_listed
listed-split valid t o options h = (ground (arith, h), ground (arith, h), ground (arith, h))

options-Entries :
    (valid : List PropertyType) (options : Options)
    → is_listed valid options ≡ true
    → FitsAll options
    → Entries valid options
unfolding collect encode_entries decode_entries
options-Entries valid [] l h = record {
  image = [];
  writes = refl;
  are_bytes = tt;
  run = λ fuel props f k. ap ok (sym (append-nil props));
}
options-Entries valid ((t, none) ∷ options) l h =
    let r = options-Entries valid options (listed-split valid t none options l).2 h.1 in
    record {
      image = r.image;
      writes = r.writes;
      are_bytes = r.are_bytes;
      run = λ fuel props f k. r.run fuel props (fresh-tail props t none options f) k;
    }
options-Entries valid ((t, some v) ∷ options) l h =
    let s = listed-split valid t (some v) options l in
    let r = options-Entries valid options s.2 h.1 in
    let e = kind-Entry valid t (kind t) v refl s.0 h.0 in
    record {
      image = e.image ++ r.image;
      writes = rw (e.writes, r.writes);
      are_bytes = All-append IsByte e.image r.image e.are_bytes r.are_bytes;
      run = λ fuel props f k.
          let next = e.run fuel props r.image (fresh-head props t (some v) options f) k in
          next.2
          ∙ (r.run next.0 (props ++ (t, v) ∷ [])
                (fresh-append props t v options (fresh-tail props t (some v) options f) s.1) next.1
              ∙ ap ok (append_assoc props ((t, v) ∷ []) (collect options)));
    }

fresh-none : (options : Options) → fresh [] options ≡ true
unfolding fresh has
fresh-none [] = refl
fresh-none (o ∷ options) = fresh-none options

-- The length of what an encoder writes
unfoldable pub size : Result (List ℕ) → ℕ
size (ok bs) = length bs
size (err e) = 0

-- Properties fit their types, and their bytes a number of variable length.
abbrev pub Writable : Options → Type 0
Writable options = FitsAll options × (size (encode_entries (collect options)) ≤ 0x0fffffff)

pub props-Reads :
    (valid : List PropertyType) (options : Options)
    → is_listed valid options ≡ true
    → Writable options
    → Reads (encode_props (collect options)) (decode_props valid) (collect options)
unfolding encode_props decode_props size
props-Reads valid options l h =
    let r = options-Entries valid options l h.0 in
    let n = uintvar-Reads (length r.image) (omega (arith, h.1, ap size r.writes)) in
    record {
      image = n.image ++ r.image;
      writes = rw (r.writes, n.writes);
      reads = λ rest.
          let f : ltb (length (r.image ++ rest)) (length r.image) ≡ false =
            le→not-ltb _ _ (omega (arith, length-append {0} r.image rest)) in
          rw (
            append_assoc n.image r.image rest,
            n.reads (r.image ++ rest),
            f,
            take-append (length r.image) r.image rest refl,
            drop-append (length r.image) r.image rest refl,
            r.run (length r.image) [] (fresh-none options) (omega arith),
          );
      are_bytes = All-append IsByte n.image r.image n.are_bytes r.are_bytes;
    }

-- For properties in range, of valid types that stand once each: `_encode_props` gives bytes from which
-- `_decode_props`, whatever follows them, takes the same dictionary and nothing more.
pub decode_props-encode_props :
    (valid : List PropertyType) (options : Options) (rest : List ℕ)
    → is_listed valid options ≡ true
    → Writable options
    → (encode_props (collect options) >>= λ bs. decode_props valid (bs ++ rest))
      ≡ ok (collect options, rest)
decode_props-encode_props valid options rest l h =
    let r = props-Reads valid options l h in rw (r.writes) (r.reads rest)

-- The value under a type before the dictionary is made
unfoldable pub lookup : Options → PropertyType → Option Value
unfolding same_type
lookup [] t = none
lookup ((u, o) ∷ options) t = let more = lookup options t in if same_type t u then o else more

other :
    (a b c : ℕ) {r : Bool}
    → (a == b) ≡ true
    → (not (c == b) && r) ≡ true
    → ((a == c) ≡ false) × (r ≡ true)
other a b c e h = (ground (arith, e, h), ground (arith, h))

get-none :
    (options : Options) (t u : PropertyType)
    → same_type t u ≡ true
    → lacks u options ≡ true
    → get (collect options) t ≡ none
unfolding get collect lacks same_type
get-none [] t u e h = refl
get-none ((w, none) ∷ options) t u e h =
    get-none options t u e (other (property_value t) (property_value u) (property_value w) e h).1
get-none ((w, some v) ∷ options) t u e h =
    let o = other (property_value t) (property_value u) (property_value w) e h in
    rw (o.0) (get-none options t u e o.1)

lookup_lem :
    (valid : List PropertyType) (options : Options)
    → is_listed valid options ≡ true
    → (t : PropertyType) → get (collect options) t ≡ lookup options t
unfolding get collect lookup
lookup_lem valid [] l t = refl
lookup_lem valid ((u, none) ∷ options) l t =
    let s = listed-split valid u none options l in
    elim (Bool-cases (same_type t u)) [
      | inl e ↦ get-none options t u e s.1 ∙ rw e refl
      | inr e ↦ lookup_lem valid options s.2 t ∙ rw e refl
    ]
lookup_lem valid ((u, some v) ∷ options) l t =
    let s = listed-split valid u (some v) options l in
    elim (Bool-cases (same_type t u)) [
      | inl e ↦ rw e refl
      | inr e ↦ rw e (lookup_lem valid options s.2 t)
    ]

pub get-collect :
    (valid : List PropertyType) (options : Options)
    → is_listed valid options ≡ true
    → get (collect options) ≡ lookup options
get-collect valid options l = fun_ext (lookup_lem valid options l)
