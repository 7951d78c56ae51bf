-- ===== src/Config/SampleCount/Least.antt =====
-- config/runtime_settings.py: the count for a duration is the least that the settings allow.
use native.Mathlib.Nat.{mod-lt, mod_self, mod-add-mod}
use endpoints.Base.{
  ℕ, suc, ◌+◌, ◌-◌, ◌%◌, ◌≤◌, ◌<◌, Bool, true, false, not, ◌≡◌, refl, sym, ap, ◌∙◌, none, some,
  ◌==◌, lt→ltb, if_false, Bool-cases, inl, inr, arith,
}
use endpoints.Config.SampleCount.{
  MetricTarget, throughput, query_latency, other_target, RuntimeSettings, samples, max, aligned,
  from_target, from_duration, from_pattern, total_samples_to_issue,
}

-- The least multiple of `n` that is at least `base`.
pub record IsLeastMultiple (n base r : ℕ) : Type 0 where
  pub enough : base ≤ r
  pub near : r < base + n
  pub multiple : r % n ≡ 0

zero_of : (m : ℕ) → not (m == 0) ≡ false → m ≡ 0
zero_of m h = ground arith

positive_of : (m : ℕ) → not (m == 0) ≡ true → 0 < m
positive_of m h = ground arith

aligned-IsLeastMultiple : (n base : ℕ) → 0 < n → IsLeastMultiple n base (aligned true n base)
unfolding aligned
aligned-IsLeastMultiple n base pos =
    let rem = base % n in
    let small : rem < n = mod-lt base pos in
    let size = lt→ltb 0 n pos in
    elim (Bool-cases (not (rem == 0))) [
      | inl some_rest ↦
          let left = positive_of rem some_rest in
          let whole : rem + (n - rem) ≡ n = omega arith in
          rw (size, some_rest)
            (record {
              enough = omega arith;
              near = omega arith;
              multiple = sym (mod-add-mod base n (n - rem)) ∙ ap (λ m. m % n) whole ∙ mod_self n;
            })
      | inr none_left ↦
          rw (size, none_left)
            (record { enough = omega arith; near = omega arith; multiple = zero_of rem none_left })
    ]

abbrev pub gives_rate : MetricTarget → Bool
gives_rate throughput = true
gives_rate query_latency = true
gives_rate other_target = false

-- Without an explicit count, off the agentic pattern, and with a positive duration and a rate, the count is
-- the least multiple of the dataset's size that is at least both the minimum and the number of samples
-- that the duration asks for.
pub total_samples_to_issue-least :
    (expected : MetricTarget → ℕ → ℕ) (s : RuntimeSettings) (d : ℕ) (t : MetricTarget)
    → s.n_samples_to_issue ≡ none
    → s.is_agentic ≡ false
    → s.min_issue_duration_ms ≡ some (suc d)
    → s.metric_target ≡ some t
    → gives_rate t ≡ true
    → 0 < s.n_samples_from_dataset
    → (r : ℕ) × (total_samples_to_issue expected true s ≡ samples r)
      × IsLeastMultiple s.n_samples_from_dataset (max s.min_sample_count (expected t (suc d))) r
unfolding total_samples_to_issue
total_samples_to_issue-least expected s d t no_count plain timed target rate pos = (
  aligned true s.n_samples_from_dataset base,
  ap (from_pattern expected true s) no_count
      ∙ if_false _ _ _ plain
      ∙ ap (from_duration expected true s) timed
      ∙ if_false _ _ _ (not_zero d)
      ∙ ap (from_target expected true s (suc d)) target
      ∙ rated t rate,
  aligned-IsLeastMultiple s.n_samples_from_dataset base pos,
)
  where
    base : ℕ
    base = max s.min_sample_count (expected t (suc d))

    not_zero : (d : ℕ) → (suc d == 0) ≡ false
    not_zero d = ground arith

    rated :
        (t : MetricTarget)
        → gives_rate t ≡ true
        → from_target expected true s (suc d) (some t)
          ≡ samples
              (aligned true s.n_samples_from_dataset (max s.min_sample_count (expected t (suc d))))
    rated throughput h = refl
    rated query_latency h = refl
    rated other_target h = absurd (cc)
