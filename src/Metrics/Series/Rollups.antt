-- ===== src/Metrics/Series/Rollups.antt =====
-- registry.py: what the cheap rollups of `SeriesSampler.record` say of the raw values.
use endpoints.Base.{
  ℕ, ◌≤◌, ◌≡◌, ◌⊎◌, refl, ap, sym, ◌∙◌, Option, none, some, List, [], ◌∷◌, ◌++◌, arith, length,
  length-append, tests, Bool-cases, inl, inr,
}
use mathlib.Core.List.{append-nil, append_assoc}
use endpoints.Base.Int.{ℤ, pos, ◌+ℤ◌, ◌*ℤ◌, ◌≤ℤ◌, ltb_ℤ, int_laws}
use endpoints.Metrics.Series.{
  SeriesSampler, max_ℕ, empty_sampler, new_sampler, clamp, record_value, record_all, lower, higher,
}

-- Independent descriptions over a list of values.
abbrev pub sum : List ℤ → ℤ
sum [] = pos 0
sum (v ∷ vs) = v +ℤ sum vs

abbrev pub squares : List ℤ → List ℤ
squares [] = []
squares (v ∷ vs) = (v *ℤ v) ∷ squares vs

abbrev pub Within : ℤ → ℤ → List ℤ → Type 0
Within lo hi [] = Unit {0}
Within lo hi (v ∷ vs) = (lo ≤ℤ v) × (v ≤ℤ hi) × Within lo hi vs

abbrev pub Occurs : ℤ → List ℤ → Type 0
Occurs x [] = ⊥
Occurs x (v ∷ vs) = (x ≡ v) ⊎ Occurs x vs

-- the least and the greatest of the values, which do not exist before the first value
abbrev pub Bounds : Option ℤ → Option ℤ → List ℤ → Type 0
Bounds (some lo) (some hi) vs = Within lo hi vs × Occurs lo vs × Occurs hi vs
Bounds none none vs = vs ≡ []
Bounds _ _ vs = ⊥

pub record IsConsistent (s : SeriesSampler) : Type 0 where
  pub counted : s.count ≡ length s.raw
  pub summed : s.total ≡ sum s.raw
  pub squared : s.sum_sq ≡ sum (squares s.raw)
  pub bounded : Bounds s.low s.high s.raw
  pub handed : Within (pos s.hdr_low) (pos s.hdr_high) s.hdr_calls
  pub handed_all : length s.hdr_calls ≡ length s.raw
  pub range : s.hdr_low ≤ s.hdr_high

sum-append : (xs ys : List ℤ) → sum (xs ++ ys) ≡ sum xs +ℤ sum ys
sum-append [] ys = omega int_laws
sum-append (x ∷ xs) ys = rw (sum-append xs ys) (omega int_laws)

squares-append : (xs ys : List ℤ) → squares (xs ++ ys) ≡ squares xs ++ squares ys
squares-append [] ys = refl
squares-append (x ∷ xs) ys = ap (◌∷◌ (x *ℤ x)) (squares-append xs ys)

Within-append :
    (lo hi v : ℤ) (vs : List ℤ) → Within lo hi vs → lo ≤ℤ v → v ≤ℤ hi → Within lo hi (vs ++ v ∷ [])
Within-append lo hi v [] h a b = (a, b, tt)
Within-append lo hi v (x ∷ vs) h a b = (h.0, h.1, Within-append lo hi v vs h.2 a b)

Within-weaken :
    (lo hi lo' hi' : ℤ) (vs : List ℤ) → Within lo hi vs → lo' ≤ℤ lo → hi ≤ℤ hi' → Within lo' hi' vs
Within-weaken lo hi lo' hi' [] h a b = tt
Within-weaken lo hi lo' hi' (x ∷ vs) h a b =
    (omega arith, omega arith, Within-weaken lo hi lo' hi' vs h.2 a b)

clamp_within :
    (s : SeriesSampler) (v : ℤ)
    → s.hdr_low ≤ s.hdr_high
    → (pos s.hdr_low ≤ℤ clamp s v) × (clamp s v ≤ℤ pos s.hdr_high)
unfolding clamp
clamp_within s v h = ground arith

Occurs-last : (v : ℤ) (vs : List ℤ) → Occurs v (vs ++ v ∷ [])
Occurs-last v [] = inl refl
Occurs-last v (x ∷ vs) = inr (Occurs-last v vs)

Occurs-append : (x v : ℤ) (vs : List ℤ) → Occurs x vs → Occurs x (vs ++ v ∷ [])
Occurs-append x v [] h = absurd h
Occurs-append x v (y ∷ vs) (inl same) = inl same
Occurs-append x v (y ∷ vs) (inr later) = inr (Occurs-append x v vs later)

Bounds-record :
    (lo hi : Option ℤ) (v : ℤ) (vs : List ℤ)
    → Bounds lo hi vs
    → Bounds (lower v lo) (higher v hi) (vs ++ v ∷ [])
Bounds-record (some lo) (some hi) v vs (h, least, greatest) = elim (Bool-cases (ltb_ℤ v lo)) [
  | inl a ↦ elim (Bool-cases (ltb_ℤ hi v)) [
    | inl b ↦
        let w =
          Within-append v v v vs (Within-weaken lo hi v v vs h (omega tests) (omega tests))
            (omega arith) (omega arith) in
        rw (a, b) (w, Occurs-last v vs, Occurs-last v vs)
    | inr b ↦
        let w =
          Within-append v hi v vs (Within-weaken lo hi v hi vs h (omega tests) (omega arith))
            (omega arith) (omega tests) in
        rw (a, b) (w, Occurs-last v vs, Occurs-append hi v vs greatest)
  ]
  | inr a ↦ elim (Bool-cases (ltb_ℤ hi v)) [
    | inl b ↦
        let w =
          Within-append lo v v vs (Within-weaken lo hi lo v vs h (omega arith) (omega tests))
            (omega tests) (omega arith) in
        rw (a, b) (w, Occurs-append lo v vs least, Occurs-last v vs)
    | inr b ↦
        let w = Within-append lo hi v vs h (omega tests) (omega tests) in
        rw (a, b) (w, Occurs-append lo v vs least, Occurs-append hi v vs greatest)
  ]
]
Bounds-record none none v [] h = ((omega arith, omega arith, tt), inl refl, inl refl)
Bounds-record none none v (x ∷ vs) h = absurd (cc)
Bounds-record (some lo) none v vs h = absurd h
Bounds-record none (some hi) v vs h = absurd h

squared_next : (vs : List ℤ) (v : ℤ) → sum (squares (vs ++ v ∷ [])) ≡ sum (squares vs) +ℤ v *ℤ v
squared_next vs v =
    rw (squares-append vs (v ∷ []), sum-append (squares vs) (squares (v ∷ []))) (omega int_laws)

record_value-IsConsistent :
    (v : ℤ) (s : SeriesSampler) → IsConsistent s → IsConsistent (record_value v s)
unfolding record_value
record_value-IsConsistent v s h = record {
  counted = rw (length-append s.raw (v ∷ [])) (omega (arith, h.counted));
  summed = rw (sum-append s.raw (v ∷ []), h.summed) (omega int_laws);
  squared = rw (squared_next s.raw v, h.squared) refl;
  bounded = Bounds-record s.low s.high v s.raw h.bounded;
  handed =
      let r = clamp_within s v h.range in
      Within-append (pos s.hdr_low) (pos s.hdr_high) (clamp s v) s.hdr_calls h.handed r.0 r.1;
  handed_all =
      rw (length-append s.hdr_calls (clamp s v ∷ []), length-append s.raw (v ∷ []))
        (omega (arith, h.handed_all));
  range = h.range;
}

new_sampler-eq :
    (lo hi : ℕ) (s : SeriesSampler)
    → new_sampler lo hi ≡ some s
    → (s ≡ empty_sampler (max_ℕ lo 1) hi) × (max_ℕ lo 1 ≤ hi)
unfolding new_sampler
new_sampler-eq lo hi s e = ground arith

empty-IsConsistent : (lo hi : ℕ) → lo ≤ hi → IsConsistent (empty_sampler lo hi)
empty-IsConsistent lo hi h = record {
  counted = refl;
  summed = refl;
  squared = refl;
  bounded = refl;
  handed = tt;
  handed_all = refl;
  range = h;
}

raw-record_all : (vs : List ℤ) (s : SeriesSampler) → (record_all vs s).raw ≡ s.raw ++ vs
unfolding record_all record_value
raw-record_all [] s = sym (append-nil s.raw)
raw-record_all (v ∷ vs) s = raw-record_all vs (record_value v s) ∙ append_assoc s.raw (v ∷ []) vs

record_all-keeps :
    (vs : List ℤ) (s : SeriesSampler) → IsConsistent s → IsConsistent (record_all vs s)
unfolding record_all
record_all-keeps [] s h = h
record_all-keeps (v ∷ vs) s h =
    record_all-keeps vs (record_value v s) (record_value-IsConsistent v s h)

-- From a sampler whose constructor accepted its bounds, recording any values keeps them in order as the raw values; the count, the sum and the sum of squares are those of the values, the recorded extremes are the least and the greatest of the values (and there are none before the first value), and one value is handed to the HDR histogram for each, always within its bounds.
pub record_all-IsConsistent :
    (lo hi : ℕ) (vs : List ℤ) {s : SeriesSampler}
    → new_sampler lo hi ≡ some s
    → IsConsistent (record_all vs s) × ((record_all vs s).raw ≡ vs)
record_all-IsConsistent lo hi vs {s} e =
    let made = new_sampler-eq lo hi s e in
    rw made.0 (
      record_all-keeps vs (empty_sampler (max_ℕ lo 1) hi)
          (empty-IsConsistent (max_ℕ lo 1) hi made.1),
      raw-record_all vs (empty_sampler (max_ℕ lo 1) hi),
    )
