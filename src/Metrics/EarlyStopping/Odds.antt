-- ===== src/Metrics/EarlyStopping/Odds.antt =====
-- metrics/early_stopping.py: what the searches return for odds that fall and rise as documented.
use endpoints.Base.{ℕ, ◌+◌, ◌≤◌, Bool, true, not, ◌≡◌, ltb, leb, if◌then◌else◌}
use endpoints.Metrics.EarlyStopping.{
  bracket, last_between, and_then, Floats, Search, found, searched, validate_domain, passes,
  find_min_passing, count_of,
}

-- What the searches rely on, for given `p`, `d` and `c`: the odds fall with the queries under the
-- latency and rise with those over it, and in the domain they pass at `reach t` queries.
pub record AreOdds (fl : Floats) (odds : ℕ → ℕ → fl.F → fl.F → fl.F) (p d c : fl.F) (reach : ℕ → ℕ)
    : Type 0 where
  pub falls :
      (t h k : ℕ) (x : fl.F)
      → h ≤ k
      → fl.less (odds h t p d) x ≡ true
      → fl.less (odds k t p d) x ≡ true
  pub rises :
      (t u h : ℕ) (x : fl.F)
      → t ≤ u
      → fl.less (odds h u p d) x ≡ true
      → fl.less (odds h t p d) x ≡ true
  pub ends :
      validate_domain fl odds p d c ≡ true → (t : ℕ) → passes fl odds t p d c (reach t) ≡ true

module _ (fl : Floats) (odds : ℕ → ℕ → fl.F → fl.F → fl.F) (p d c : fl.F) (reach : ℕ → ℕ)
    (laws : AreOdds fl odds p d c reach) where
  abbrev min_passing : ℕ → ℕ
  min_passing t = count_of (find_min_passing fl odds (reach t) t p d c)

  module _ (n : ℕ) (valid : validate_domain fl odds p d c ≡ true) where
    abbrev fits : ℕ → Bool
    fits t = leb (min_passing t + t) n

    abbrev loops : ℕ → Search
    loops m =
        if ltb n (m + 1)
        then found 0
        else searched (
            and_then (bracket (λ t. not (fits t)) n 2)
              (λ hi. last_between (λ t. not (fits t)) hi 1 hi))
