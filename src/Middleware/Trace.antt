-- ===== src/Middleware/Trace.antt =====
-- The trace ids that a traceparent header gives.
use payments_engine.Base.{
  ℕ, Bool, true, false, not, ◌||◌, List, [], ◌∷◌, ◌++◌, Text, ◌≡◌, refl, sym, ap, ◌∙◌, arith, ◌==◌,
  text_eq, nat_eq, length, nat_beq, ◌⊎◌, ◌≤◌, All, inl, inr, Bool-cases, subst, ==→eq,
}
use payments_engine.Base.Strings.{trim_space, to_lower, trim_char, drop_char, split}
use payments_engine.Middleware.{
  is_hex_string, checked_trace_id, trace_id_of_parts, trace_id_from_traceparent,
}
use mathlib.Core.List.{reverse, reverse-cons}

down_and_up : true ≡ false → ⊥
down_and_up h = cc

-- whether some character is not `c`
abbrev pub has_other : ℕ → Text → Bool
has_other c [] = false
has_other c (d ∷ s) = not (nat_beq d c) || has_other c s

has_other-append : (c : ℕ) (s t : Text) → has_other c (s ++ t) ≡ (has_other c s || has_other c t)
has_other-append c [] t = refl
has_other-append c (d ∷ s) t = ground (arith, has_other-append c s t)

has_other-reverse : (c : ℕ) (s : Text) → has_other c (reverse s) ≡ has_other c s
has_other-reverse c [] = refl
has_other-reverse c (d ∷ s) =
    ap (λ (t : Text). has_other c t) (reverse-cons d s)
    ∙ has_other-append c (reverse s) (d ∷ [])
    ∙ ground (arith, has_other-reverse c s)

has_other-drop_char : (c : ℕ) (s : Text) → has_other c (drop_char c s) ≡ has_other c s
unfolding drop_char
has_other-drop_char c [] = refl
has_other-drop_char c (d ∷ s) = ground (arith, has_other-drop_char c s)

has_other-trim_char : (c : ℕ) (s : Text) → has_other c (trim_char c s) ≡ has_other c s
unfolding trim_char
has_other-trim_char c s =
    has_other-reverse c (drop_char c (reverse (drop_char c s)))
    ∙ has_other-drop_char c (reverse (drop_char c s))
    ∙ has_other-reverse c (drop_char c s)
    ∙ has_other-drop_char c s

drop_char-none : (c : ℕ) (s : Text) → has_other c s ≡ false → drop_char c s ≡ []
unfolding drop_char
drop_char-none c [] h = refl
drop_char-none c (d ∷ s) h = ground (arith, drop_char-none c s)

trim_char-none : (c : ℕ) (s : Text) → has_other c s ≡ false → trim_char c s ≡ []
unfolding trim_char drop_char
trim_char-none c s h = rw (drop_char-none c s h) refl

-- a digit from 0 to 9 or a letter from a to f
abbrev pub IsHexDigit : ℕ → Type 0
IsHexDigit c = ((48 ≤ c) × (c ≤ 57)) ⊎ ((97 ≤ c) × (c ≤ 102))

pub is_hex_string-digits : (id : Text) → is_hex_string id ≡ true → All IsHexDigit id
unfolding is_hex_string
is_hex_string-digits [] h = tt
is_hex_string-digits (c ∷ s) h = (ground arith, is_hex_string-digits s (ground arith))

digits-is_hex_string : (id : Text) → All IsHexDigit id → is_hex_string id ≡ true
unfolding is_hex_string
digits-is_hex_string [] h = refl
digits-is_hex_string (c ∷ s) h = ground (arith, h.0, digits-is_hex_string s h.1)

-- 32 lower-case hexadecimal digits that are not all 0
pub record IsTraceId (id : Text) : Type 0 where
  pub length_eq : length id ≡ 32
  pub digits : All IsHexDigit id
  pub nonzero : has_other 48 id ≡ true

trim_char-some : (c : ℕ) (s : Text) → has_other c s ≡ true → (trim_char c s == []) ≡ false
trim_char-some c s h = elim (Bool-cases (trim_char c s == [])) [
  | inr full ↦ full
  | inl empty ↦ absurd (
      down_and_up (
        sym h
        ∙ sym (has_other-trim_char c s)
        ∙ ap (λ (t : Text). has_other c t) (==→eq (trim_char c s) [] empty)))
]

checked_trace_id-same : (id : Text) → IsTraceId id → checked_trace_id id ≡ id
checked_trace_id-same id h =
    rw (h.length_eq, digits-is_hex_string id h.digits, trim_char-some 48 id h.nonzero) refl

-- no trace id, or a good one
abbrev pub NoneOrTraceId : Text → Type 0
NoneOrTraceId t = (t ≡ []) ⊎ IsTraceId t

checked_trace_id-NoneOrTraceId : (id : Text) → NoneOrTraceId (checked_trace_id id)
checked_trace_id-NoneOrTraceId id = elim (Bool-cases (length id == 32)) [
  | inr other ↦ inl (rw other refl)
  | inl size ↦ elim (Bool-cases (is_hex_string id)) [
    | inr other ↦ inl (rw (size, other) refl)
    | inl hex ↦ elim (Bool-cases (has_other 48 id)) [
      | inr zeros ↦ inl (rw (size, hex, trim_char-none 48 id zeros) refl)
      | inl digit ↦
          let good : IsTraceId id = record {
            length_eq = ==→eq (length id) 32 size;
            digits = is_hex_string-digits id hex;
            nonzero = digit;
          } in
          inr (subst IsTraceId (sym (checked_trace_id-same id good)) good)
    ]
  ]
]

parts-NoneOrTraceId : (parts : List Text) → NoneOrTraceId (trace_id_of_parts parts)
parts-NoneOrTraceId [] = inl refl
parts-NoneOrTraceId (v ∷ []) = inl refl
parts-NoneOrTraceId (v ∷ id ∷ []) = inl refl
parts-NoneOrTraceId (v ∷ id ∷ p ∷ []) = inl refl
parts-NoneOrTraceId (v ∷ id ∷ p ∷ f ∷ []) = checked_trace_id-NoneOrTraceId (to_lower id)
parts-NoneOrTraceId (v ∷ id ∷ p ∷ f ∷ more ∷ rest) = inl refl

-- Of any header, traceIDFromTraceparent takes nothing or 32 lower-case hexadecimal digits, which are
-- not all 0.
pub trace_id_from_traceparent-NoneOrTraceId :
    (header : Text) → NoneOrTraceId (trace_id_from_traceparent header)
unfolding trace_id_from_traceparent
trace_id_from_traceparent-NoneOrTraceId header = elim (Bool-cases (trim_space header == [])) [
  | inl blank ↦ inl (rw blank refl)
  | inr given ↦ rw given (parts-NoneOrTraceId (split 45 (trim_space header)))
]

-- a part that holds no separator
abbrev pub has_char : ℕ → Text → Bool
has_char c [] = false
has_char c (d ∷ s) = nat_beq d c || has_char c s

split-last : (sep : ℕ) (part : Text) → has_char sep part ≡ false → split sep part ≡ part ∷ []
unfolding split
split-last sep [] h = refl
split-last sep (c ∷ s) h = ground (arith, split-last sep s)

split-part :
    (sep : ℕ) (part rest : Text)
    → has_char sep part ≡ false
    → split sep (part ++ (sep ∷ rest)) ≡ part ∷ split sep rest
unfolding split
split-part sep [] rest h = ground arith
split-part sep (c ∷ s) rest h = ground (arith, split-part sep s rest)

lower_hex : (id : Text) → is_hex_string id ≡ true → to_lower id ≡ id
unfolding is_hex_string to_lower
lower_hex [] h = refl
lower_hex (c ∷ s) h = ground (arith, lower_hex s)

-- the header that the specification of the trace context prescribes
abbrev pub traceparent_of : Text → Text → Text → Text → Text
traceparent_of version id parent flags = version ++ (45 ∷ (id ++ (45 ∷ (parent ++ (45 ∷ flags)))))

hex_has_no_dash : (id : Text) → is_hex_string id ≡ true → has_char 45 id ≡ false
unfolding is_hex_string
hex_has_no_dash [] h = refl
hex_has_no_dash (c ∷ s) h = ground (arith, hex_has_no_dash s)

split-traceparent_of :
    (version id parent flags : Text)
    → has_char 45 version ≡ false
    → has_char 45 id ≡ false
    → has_char 45 parent ≡ false
    → has_char 45 flags ≡ false
    → split 45 (traceparent_of version id parent flags) ≡ version ∷ id ∷ parent ∷ flags ∷ []
split-traceparent_of version id parent flags v i p f =
    split-part 45 version _ v
    ∙ ap (λ (r : List Text). version ∷ r)
        (split-part 45 id _ i
          ∙ ap (λ (r : List Text). id ∷ r)
              (split-part 45 parent flags p
                ∙ ap (λ (r : List Text). parent ∷ r) (split-last 45 flags f)))

some_dash : (version rest : Text) → (version ++ (45 ∷ rest) == []) ≡ false
some_dash [] rest = refl
some_dash (c ∷ s) rest = refl

-- A trace id that is sent in a traceparent header without spaces around it is the one that is taken
-- from the header.
pub trace_id_from_traceparent-traceparent_of :
    (version id parent flags : Text)
    → IsTraceId id
    → has_char 45 version ≡ false
    → has_char 45 parent ≡ false
    → has_char 45 flags ≡ false
    → trim_space (traceparent_of version id parent flags) ≡ traceparent_of version id parent flags
    → trace_id_from_traceparent (traceparent_of version id parent flags) ≡ id
unfolding trace_id_from_traceparent
trace_id_from_traceparent-traceparent_of version id parent flags h v p f trimmed =
    rw
      (
        trimmed,
        some_dash version (id ++ (45 ∷ (parent ++ (45 ∷ flags)))),
        split-traceparent_of version id parent flags v
            (hex_has_no_dash id (digits-is_hex_string id h.digits)) p f,
        lower_hex id (digits-is_hex_string id h.digits),
      )
      (checked_trace_id-same id h)
