-- ===== src/Metrics/EarlyStopping/Searches.antt =====
-- metrics/early_stopping.py: the searches end, and find the boundary of a monotone test.
use endpoints.Base.{
  ℕ, zero, suc, ◌+◌, ◌*◌, ◌/◌, ◌≤◌, ◌<◌, Bool, true, false, not, ◌≡◌, refl, sym, ◌∙◌, ap, some, ltb,
  leb, if_true, if_false, Bool-cases, inl, inr, arith, ltb→lt, ltb→le, leb→le, leb→lt,
}
use endpoints.Metrics.EarlyStopping.{bracket, least_between, last_between, and_then}

pub absurd_Bool : {b : Bool} → b ≡ true → b ≡ false → ⊥
absurd_Bool p q = absurd (cc)

-- Once a test holds it holds from there on.
abbrev pub IsMonotone : (ℕ → Bool) → Type 0
IsMonotone stop = (a b : ℕ) → a ≤ b → stop a ≡ true → stop b ≡ true

-- The first number from `lo` on where the test holds.
pub record IsFirst (stop : ℕ → Bool) (lo h : ℕ) : Type 0 where
  pub from : lo ≤ h
  pub holds : stop h ≡ true
  pub none_before : (k : ℕ) → lo ≤ k → k < h → stop k ≡ false

ge→ltb : (a b : ℕ) → b ≤ a → ltb a b ≡ false
ge→ltb a b h = ground arith

found_at :
    (stop : ℕ → Bool) (lo hi : ℕ) → IsMonotone stop → stop hi ≡ true → hi ≤ lo → IsFirst stop lo lo
found_at stop lo hi mono e le = record {
  from = omega arith;
  holds = mono hi lo le e;
  none_before = λ k a b. absurd (omega arith);
}

-- Where the test fails up to a number, the first from the next one on is the first from the start.
found_above :
    (stop : ℕ → Bool) (lo mid h : ℕ)
    → IsMonotone stop
    → stop mid ≡ false
    → lo ≤ mid
    → IsFirst stop (mid + 1) h
    → IsFirst stop lo h
found_above stop lo mid h mono fails le f = record {
  from = omega (arith, f.from);
  holds = f.holds;
  none_before = λ k a b. elim (Bool-cases (stop k)) [
    | inl passes ↦ elim (Bool-cases (leb k mid)) [
      | inl early ↦ absurd (absurd_Bool (mono k mid (leb→le k mid early) passes) fails)
      | inr late ↦ f.none_before k (omega (arith, leb→lt k mid late)) b
    ]
    | inr not_so ↦ not_so
  ];
}

module _ (stop : ℕ → Bool) where
  bracket-holds :
      (fuel hi goal : ℕ)
      → IsMonotone stop
      → stop goal ≡ true
      → 1 ≤ hi
      → goal ≤ hi + fuel
      → (h : ℕ) × (bracket stop fuel hi ≡ some h) × (stop h ≡ true) × (hi ≤ h)
  unfolding bracket
  bracket-holds zero hi goal mono e p le =
      (hi, if_true _ _ _ (mono goal hi (omega arith) e), mono goal hi (omega arith) e, omega arith)
  bracket-holds (suc fuel) hi goal mono e p le = elim (Bool-cases (stop hi)) [
    | inl here ↦ (hi, if_true _ _ _ here, here, omega arith)
    | inr later ↦
        let (h, found, s, above) =
          bracket-holds fuel (hi * 2) goal mono e (omega arith) (omega arith) in
        (h, if_false _ _ _ later ∙ found, s, omega arith)
  ]

  least_between-IsFirst :
      (fuel lo hi : ℕ)
      → IsMonotone stop
      → stop hi ≡ true
      → lo ≤ hi
      → hi ≤ lo + fuel
      → (h : ℕ) × (least_between stop fuel lo hi ≡ some h) × IsFirst stop lo h
  unfolding least_between
  least_between-IsFirst zero lo hi mono e le enough = (
    lo,
    if_false (ltb lo hi) _ _ (ge→ltb lo hi (omega arith)),
    found_at stop lo hi mono e (omega arith),
  )
  least_between-IsFirst (suc fuel) lo hi mono e le enough = elim (Bool-cases (ltb lo hi)) [
    | inl apart ↦
        let mid = (lo + hi) / 2 in
        let gap = ltb→lt lo hi apart in
        elim (Bool-cases (stop mid)) [
          | inl here ↦
              let (h, found, f) =
                least_between-IsFirst fuel lo mid mono here (omega arith) (omega arith) in
              (h, if_true _ _ _ apart ∙ if_true _ _ _ here ∙ found, f)
          | inr later ↦
              let (h, found, f) =
                least_between-IsFirst fuel (mid + 1) hi mono e (omega arith) (omega arith) in
              (
                h,
                if_true _ _ _ apart ∙ if_false _ _ _ later ∙ found,
                found_above stop lo mid h mono later (omega arith) f,
              )
        ]
    | inr met ↦ (lo, if_false _ _ _ met, found_at stop lo hi mono e (ltb→le lo hi met))
  ]

  -- the two loops of `find_min_passing`
  pub least_passing :
      (goal : ℕ)
      → IsMonotone stop
      → stop goal ≡ true
      → (h : ℕ) × (and_then (bracket stop goal 2) (λ hi. least_between stop hi 1 hi) ≡ some h)
        × IsFirst stop 1 h
  least_passing goal mono e =
      let (hi, found, s, above) = bracket-holds goal 2 goal mono e (omega arith) (omega arith) in
      let (h, least, f) = least_between-IsFirst hi 1 hi mono s (omega arith) (omega arith) in
      (h, ap (λ o. and_then o (λ m. least_between stop m 1 m)) found ∙ least, f)

  last_between_lem :
      (fuel lo hi : ℕ)
      → stop lo ≡ false
      → stop hi ≡ true
      → lo < hi
      → hi ≤ lo + 1 + fuel
      → (t : ℕ) × (last_between stop fuel lo hi ≡ some t)
        × (lo ≤ t)
        × (stop t ≡ false)
        × (stop (t + 1) ≡ true)
  unfolding last_between
  last_between_lem zero lo hi a b lt enough =
      let next : lo + 1 ≡ hi = omega arith in
      (
        lo,
        if_false (ltb (lo + 1) hi) _ _ (ge→ltb (lo + 1) hi (omega arith)),
        omega arith,
        a,
        ap stop next ∙ b,
      )
  last_between_lem (suc fuel) lo hi a b lt enough = elim (Bool-cases (ltb (lo + 1) hi)) [
    | inl apart ↦
        let mid = (lo + hi) / 2 in
        let gap = ltb→lt (lo + 1) hi apart in
        elim (Bool-cases (stop mid)) [
          | inl above ↦
              let (t, found, le, p, q) =
                last_between_lem fuel lo mid a above (omega arith) (omega arith) in
              (t, if_true _ _ _ apart ∙ if_true _ _ _ above ∙ found, le, p, q)
          | inr below ↦
              let (t, found, le, p, q) =
                last_between_lem fuel mid hi below b (omega arith) (omega arith) in
              (t, if_true _ _ _ apart ∙ if_false _ _ _ below ∙ found, omega arith, p, q)
        ]
    | inr met ↦
        let far = ltb→le (lo + 1) hi met in
        let next : lo + 1 ≡ hi = omega arith in
        (lo, if_false _ _ _ met, omega arith, a, ap stop next ∙ b)
  ]

pub eq_false : {b : Bool} → not b ≡ true → b ≡ false
eq_false {b = true} p = sym p
eq_false {b = false} p = refl

pub eq_true : {b : Bool} → not b ≡ false → b ≡ true
eq_true {b = true} p = refl
eq_true {b = false} p = sym p

-- Exactly the numbers from 1 up to `t` pass a test that fails from some number on.
pub split_at :
    (fits : ℕ → Bool) (t : ℕ)
    → IsMonotone (λ k. not (fits k))
    → (1 ≤ t → fits t ≡ true)
    → fits (t + 1) ≡ false
    → (k : ℕ) → 1 ≤ k
    → fits k ≡ leb k t
split_at fits t mono last next k from = elim (Bool-cases (leb k t)) [
  | inl within ↦ elim (Bool-cases (fits k)) [
    | inl passes ↦ passes ∙ sym within
    | inr fails ↦ absurd (
        absurd_Bool (last (omega (arith, leb→le k t within)))
          (eq_false (mono k t (leb→le k t within) (ap not fails))))
  ]
  | inr beyond ↦
      eq_false (mono (t + 1) k (omega (arith, leb→lt k t beyond)) (ap not next)) ∙ sym beyond
]

-- the two loops of `_discard_count`, where a budget of one fits
pub last_fitting :
    (fits : ℕ → Bool) (goal : ℕ)
    → IsMonotone (λ k. not (fits k))
    → fits goal ≡ false
    → fits 1 ≡ true
    → let stop : ℕ → Bool = λ k. not (fits k) in
      (t : ℕ) × (and_then (bracket stop goal 2) (λ hi. last_between stop hi 1 hi) ≡ some t)
      × ((k : ℕ) → 1 ≤ k → fits k ≡ leb k t)
last_fitting fits goal mono fails some_budget =
    let stop : ℕ → Bool = λ k. not (fits k) in
    let (hi, found, s, above) =
      bracket-holds stop goal 2 goal mono (ap not fails) (omega arith) (omega arith) in
    let (t, last, le, p, q) =
      last_between_lem stop hi 1 hi (ap not some_budget) s (omega arith) (omega arith) in
    (
      t,
      ap (λ o. and_then o (λ m. last_between stop m 1 m)) found ∙ last,
      split_at fits t mono (λ h. eq_true p) (eq_false q),
    )
