-- ===== src/Metrics/EarlyStopping.antt =====
-- metrics/early_stopping.py: the searches of `find_min_passing` and `_discard_count`. The odds are
-- floating-point numbers of special functions, and a parameter.
pub mod Searches
pub mod Odds
use endpoints.Base.{
  ℕ, zero, suc, ◌+◌, ◌-◌, ◌*◌, ◌/◌, Bool, true, false, not, ◌&&◌, Option, none, some, List, ltb,
  leb, if◌then◌else◌, length, get_elem?,
}

-- `while not stop(hi): hi *= 2`; `none` when the fuel does not suffice
unfoldable pub bracket : (ℕ → Bool) → ℕ → ℕ → Option ℕ
bracket stop zero hi = if stop hi then some hi else none
bracket stop (suc fuel) hi =
    let rest = bracket stop fuel (hi * 2) in if stop hi then some hi else rest

-- the binary search `while lo < hi` of `find_min_passing`
unfoldable pub least_between : (ℕ → Bool) → ℕ → ℕ → ℕ → Option ℕ
least_between stop zero lo hi = if ltb lo hi then none else some lo
least_between stop (suc fuel) lo hi =
    let mid = (lo + hi) / 2 in
    let left = least_between stop fuel lo mid in
    let right = least_between stop fuel (mid + 1) hi in
    if ltb lo hi then (if stop mid then left else right) else some lo

-- the binary search `while lo < hi - 1` of `_discard_count`, where `stop` is the failing of its test
unfoldable pub last_between : (ℕ → Bool) → ℕ → ℕ → ℕ → Option ℕ
last_between stop zero lo hi = if ltb (lo + 1) hi then none else some lo
last_between stop (suc fuel) lo hi =
    let mid = (lo + hi) / 2 in
    let right = last_between stop fuel mid hi in
    let left = last_between stop fuel lo mid in
    if ltb (lo + 1) hi then (if stop mid then left else right) else some lo

abbrev pub and_then {ℓ κ} : {A : Type ℓ} {B : Type κ} → Option A → (A → Option B) → Option B
and_then none f = none
and_then (some a) f = f a

-- The floating-point numbers, by what the module does with them. The odds are no NaN, so that `a >= b`
-- is `not a < b`.
pub record Floats : Type 1 where
  pub F : Type 0
  pub less : F → F → Bool
  pub minus : F → F → F
  pub zero_point : F
  pub one_point : F

-- What a search returns or raises. `no_fuel` is none of the code's results.
pub data Search : Type 0 where
  found : ℕ → Search
  value_error : Search
  no_fuel : Search

abbrev pub searched : Option ℕ → Search
searched none = no_fuel
searched (some h) = found h

-- the number that a search in a test of `_discard_count` gives; its first call raises if one raises
abbrev pub count_of : Search → ℕ
count_of (found h) = h
count_of value_error = 0
count_of no_fuel = 0

-- `_discard_count` after its first search, where `min_passing t` is what the search for `t` gives
abbrev pub discard_from : ℕ → ℕ → (ℕ → ℕ) → Search → Search
discard_from fuel n min_passing value_error = value_error
discard_from fuel n min_passing no_fuel = no_fuel
discard_from fuel n min_passing (found h) =
    if ltb n (h + 1)
    then found 0
    else searched (
        and_then (bracket (λ t. not (leb (min_passing t + t) n)) fuel 2)
          (λ hi. last_between (λ t. not (leb (min_passing t + t) n)) hi 1 hi))

-- `odds h t p d` is `_odds(h, t, p, d)`.
module _ (fl : Floats) (odds : ℕ → ℕ → fl.F → fl.F → fl.F) where
  -- `_validate_domain`; false is its `ValueError`
  unfoldable pub validate_domain : fl.F → fl.F → fl.F → Bool
  validate_domain p d c =
      (fl.less fl.zero_point p && fl.less p fl.one_point)
      && ((fl.less fl.zero_point c && fl.less c fl.one_point)
          && (not (fl.less d fl.zero_point) && fl.less d p))

  -- `_odds(h, t, p, d) < 1.0 - c`
  abbrev pub passes : ℕ → fl.F → fl.F → fl.F → ℕ → Bool
  passes t p d c h = fl.less (odds h t p d) (fl.minus fl.one_point c)

  unfoldable pub find_min_passing : ℕ → ℕ → fl.F → fl.F → fl.F → Search
  unfolding validate_domain
  find_min_passing fuel t p d c =
      if validate_domain p d c
      then searched (
          and_then (bracket (passes t p d c) fuel 2) (λ hi. least_between (passes t p d c) hi 1 hi))
      else value_error

  -- `_discard_count`; `reach t` is the fuel of the searches for `t`
  unfoldable pub discard_count : ℕ → (ℕ → ℕ) → ℕ → fl.F → fl.F → fl.F → Search
  unfolding find_min_passing
  discard_count fuel reach n p d c =
      discard_from fuel n (λ t. count_of (find_min_passing (reach t) t p d c))
        (find_min_passing (reach 1) 1 p d c)
