-- ===== src/Mqtt/Properties/Repeated.antt =====
-- A list of values under one property, in `_encode_props` and `_decode_props`.
use hat_drivers.Base.{ℕ, zero, suc, ◌≤◌, ◌<◌, ◌≡◌, refl, sym, ap, ◌∙◌, arith, List, [], ◌∷◌, ◌++◌}
use hat_drivers.Base.{length, length-append, All, All-append, Bool, true, false, not, ◌&&◌}
use hat_drivers.Base.{ok}
use hat_drivers.Base.Bytes.{IsByte}
use mathlib.Core.List.{append_assoc, append-nil}
use hat_drivers.Mqtt.Common.{Text}
use hat_drivers.Mqtt.Primitives.{decode_uintvar}
use hat_drivers.Mqtt.Primitives.RoundTrip.{uintvar-Reads, text-Reads, IsText}
use hat_drivers.Mqtt.Properties.{
  PropertyType, property_value, kind, Value, identifiers, text_pairs, Props,
}
use hat_drivers.Mqtt.Properties.{decode_value, mentions, has, join, is_repeated, decode_entries}
use hat_drivers.Mqtt.Properties.{encode_prop, encode_identifiers, encode_pairs}
use hat_drivers.Mqtt.Properties.{identifiers_kind, pairs_kind}
use hat_drivers.Mqtt.Properties.Steps.{property-of_value, code-Reads, image-positive}
use hat_drivers.Mqtt.Properties.Steps.{add_prop-last, round, not_zero}
-- What `_decode_props` does with the bytes of a property: it adds the property and reads on.
use hat_drivers.Mqtt.Properties.Entry.{Entry, and_false, single_run}

-- One element of a list under a property
pub record Element {A : Type 0} (t : PropertyType) (wrap : List A → Value) (a : A) : Type 0 where
  pub head : List ℕ
  pub body : List ℕ
  pub is_positive : 1 ≤ length head
  pub reads_code : (rest : List ℕ) → decode_uintvar (head ++ rest) ≡ ok (property_value t, rest)
  pub reads_value :
      (rest : List ℕ) → decode_value (kind t) (body ++ rest) ≡ ok (wrap (a ∷ []), rest)
  pub are_bytes : All IsByte (head ++ body)

module _ {A : Type 0} (t : PropertyType) (wrap : List A → Value) where
  abbrev images : (xs : List A) → All (Element t wrap) xs → List ℕ
  images [] es = []
  images (a ∷ xs) (e, es) = (e.head ++ e.body) ++ images xs es

  images-IsByte : (xs : List A) (es : All (Element t wrap) xs) → All IsByte (images xs es)
  images-IsByte [] es = tt
  images-IsByte (a ∷ xs) (e, es) =
      All-append IsByte (e.head ++ e.body) (images xs es) e.are_bytes (images-IsByte xs es)

  module _ (valid : List PropertyType) (m : mentions t valid ≡ true)
      (r : is_repeated (kind t) ≡ true)
      (joins : (us ws : List A) → join (wrap us) (wrap ws) ≡ wrap (us ++ ws)) where
    -- Elements that follow others
    later :
        (xs : List A) (es : All (Element t wrap) xs) (given : List A) (fuel : ℕ) (props : Props)
        (more : List ℕ)
        → has props t ≡ false
        → length (images xs es ++ more) ≤ fuel
        → (f : ℕ) × (length more ≤ f)
          × (decode_entries fuel valid (props ++ (t, wrap given) ∷ []) (images xs es ++ more)
              ≡ decode_entries f valid (props ++ (t, wrap (given ++ xs)) ∷ []) more)
    later [] es given fuel props more h l = (fuel, l, rw (append-nil given) refl)
    later (a ∷ xs) (e, es) given zero props more h l =
        let p = e.is_positive in
        absurd (
          omega (
            arith,
            p,
            length-append {0} e.head e.body,
            length-append {0} ((e.head ++ e.body) ++ images xs es) more,
            length-append {0} (e.head ++ e.body) (images xs es),
          ))
    later (a ∷ xs) (e, es) given (suc fuel) props more h l =
        let rest = images xs es ++ more in
        let p = e.is_positive in
        let next = later xs es (given ++ a ∷ []) fuel props more h (
          omega (
            arith,
            p,
            length-append {0} e.head e.body,
            length-append {0} ((e.head ++ e.body) ++ images xs es) more,
            length-append {0} (images xs es) more,
            length-append {0} (e.head ++ e.body) (images xs es),
          )) in
        (
          next.0,
          next.1,
          ap (decode_entries (suc fuel) valid (props ++ (t, wrap given) ∷ [])) (
                append_assoc (e.head ++ e.body) (images xs es) more
                ∙ append_assoc e.head e.body rest)
              ∙ (round fuel valid (props ++ (t, wrap given) ∷ []) (e.head ++ (e.body ++ rest))
                    (e.reads_code (e.body ++ rest)) (property-of_value t) m
                    (ap (λ (b : Bool). has (props ++ (t, wrap given) ∷ []) t && not b) r
                      ∙ and_false (has (props ++ (t, wrap given) ∷ []) t))
                    (e.reads_value rest)
                  ∙ (ap (λ q. decode_entries fuel valid q rest)
                        (add_prop-last t (wrap (a ∷ [])) (wrap given) props h
                          ∙ ap (λ w. props ++ (t, w) ∷ []) (joins given (a ∷ [])))
                      ∙ (next.2
                          ∙ ap (λ xs. decode_entries next.0 valid (props ++ (t, wrap xs) ∷ []) more)
                              (append_assoc given (a ∷ []) xs)))),
        )

    all_run :
        (a : A) (xs : List A) (es : All (Element t wrap) (a ∷ xs)) (fuel : ℕ) (props : Props)
        (more : List ℕ)
        → has props t ≡ false
        → length (images (a ∷ xs) es ++ more) ≤ fuel
        → (f : ℕ) × (length more ≤ f)
          × (decode_entries fuel valid props (images (a ∷ xs) es ++ more)
              ≡ decode_entries f valid (props ++ (t, wrap (a ∷ xs)) ∷ []) more)
    all_run a xs (e, es) fuel props more h l =
        let rest = images xs es ++ more in
        let split = append_assoc (e.head ++ e.body) (images xs es) more in
        let first =
          single_run valid t (wrap (a ∷ [])) e.head e.body m e.is_positive e.reads_code
            e.reads_value fuel props rest h
            (omega (arith, l, ap (λ (q : List ℕ). length q) split)) in
        let next = later xs es (a ∷ []) first.0 props more h first.1 in
        (next.0, next.1, ap (decode_entries fuel valid props) split ∙ (first.2 ∙ next.2))

abbrev pub IsIdentifier : ℕ → Type 0
IsIdentifier i = (0 < i) × (i ≤ 0x0fffffff)

abbrev pub IsPair : Text × Text → Type 0
IsPair (key, value) = IsText key × IsText value

unfoldable identifier-Element :
    (t : PropertyType) (k : kind t ≡ identifiers_kind) (i : ℕ)
    → IsIdentifier i
    → Element t identifiers i
unfolding decode_value
identifier-Element t k i h =
    let c = code-Reads t in
    let r = uintvar-Reads i h.1 in
    record {
      head = c.image;
      body = r.image;
      is_positive = image-positive c;
      reads_code = c.reads;
      reads_value = λ rest. rw (k, r.reads rest, not_zero i h.0);
      are_bytes = All-append IsByte c.image r.image c.are_bytes r.are_bytes;
    }

unfoldable pair-Element :
    (t : PropertyType) (k : kind t ≡ pairs_kind) (p : Text × Text)
    → IsPair p
    → Element t text_pairs p
unfolding decode_value
pair-Element t k (key, value) h =
    let c = code-Reads t in
    let r = text-Reads key h.0 in
    let q = text-Reads value h.1 in
    record {
      head = c.image;
      body = r.image ++ q.image;
      is_positive = image-positive c;
      reads_code = c.reads;
      reads_value = λ rest.
          rw (k, append_assoc r.image q.image rest, r.reads (q.image ++ rest), q.reads rest);
      are_bytes =
          All-append IsByte c.image (r.image ++ q.image) c.are_bytes
            (All-append IsByte r.image q.image r.are_bytes q.are_bytes);
    }

abbrev identifier_elements :
    (t : PropertyType) (k : kind t ≡ identifiers_kind) (numbers : List ℕ)
    → All IsIdentifier numbers
    → All (Element t identifiers) numbers
identifier_elements t k [] hs = tt
identifier_elements t k (i ∷ numbers) (h, hs) =
    (identifier-Element t k i h, identifier_elements t k numbers hs)

abbrev pair_elements :
    (t : PropertyType) (k : kind t ≡ pairs_kind) (pairs : List (Text × Text))
    → All IsPair pairs
    → All (Element t text_pairs) pairs
pair_elements t k [] hs = tt
pair_elements t k (p ∷ pairs) (h, hs) = (pair-Element t k p h, pair_elements t k pairs hs)

encode_identifiers_lem :
    (t : PropertyType) (k : kind t ≡ identifiers_kind) (numbers : List ℕ)
    (hs : All IsIdentifier numbers)
    → encode_identifiers (property_value t) numbers
      ≡ ok (images t identifiers numbers (identifier_elements t k numbers hs))
unfolding encode_identifiers identifier-Element
encode_identifiers_lem t k [] hs = refl
encode_identifiers_lem t k (i ∷ numbers) (h, hs) =
    let c = code-Reads t in
    let r = uintvar-Reads i h.1 in
    rw (not_zero i h.0, c.writes, r.writes, encode_identifiers_lem t k numbers hs)
      (ap ok (
        sym (
          append_assoc c.image r.image
            (images t identifiers numbers (identifier_elements t k numbers hs)))))

encode_pairs_lem :
    (t : PropertyType) (k : kind t ≡ pairs_kind) (pairs : List (Text × Text))
    (hs : All IsPair pairs)
    → encode_pairs (property_value t) pairs
      ≡ ok (images t text_pairs pairs (pair_elements t k pairs hs))
unfolding encode_pairs pair-Element
encode_pairs_lem t k [] hs = refl
encode_pairs_lem t k ((key, value) ∷ pairs) (h, hs) =
    let c = code-Reads t in
    let r = text-Reads key h.0 in
    let q = text-Reads value h.1 in
    let rest = images t text_pairs pairs (pair_elements t k pairs hs) in
    rw (c.writes, r.writes, q.writes, encode_pairs_lem t k pairs hs)
      (ap ok (
        ap (λ l. c.image ++ l) (sym (append_assoc r.image q.image rest))
        ∙ sym (append_assoc c.image (r.image ++ q.image) rest)))

pub identifiers-Entry :
    (valid : List PropertyType) (t : PropertyType) (k : kind t ≡ identifiers_kind) (i : ℕ)
    (numbers : List ℕ)
    → mentions t valid ≡ true
    → All IsIdentifier (i ∷ numbers)
    → Entry valid t (identifiers (i ∷ numbers))
unfolding encode_prop join is_repeated
identifiers-Entry valid t k i numbers m hs =
    let es = identifier_elements t k (i ∷ numbers) hs in
    record {
      image = images t identifiers (i ∷ numbers) es;
      writes = rw k (encode_identifiers_lem t k (i ∷ numbers) hs);
      are_bytes = images-IsByte t identifiers (i ∷ numbers) es;
      run = all_run t identifiers valid m (rw k refl) (λ us ws. refl) i numbers es;
    }

pub pairs-Entry :
    (valid : List PropertyType) (t : PropertyType) (k : kind t ≡ pairs_kind) (p : Text × Text)
    (pairs : List (Text × Text))
    → mentions t valid ≡ true
    → All IsPair (p ∷ pairs)
    → Entry valid t (text_pairs (p ∷ pairs))
unfolding encode_prop join is_repeated
pairs-Entry valid t k p pairs m hs =
    let es = pair_elements t k (p ∷ pairs) hs in
    record {
      image = images t text_pairs (p ∷ pairs) es;
      writes = rw k (encode_pairs_lem t k (p ∷ pairs) hs);
      are_bytes = images-IsByte t text_pairs (p ∷ pairs) es;
      run = all_run t text_pairs valid m (rw k refl) (λ us ws. refl) p pairs es;
    }
