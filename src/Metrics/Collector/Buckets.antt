-- ===== src/Metrics/Collector/Buckets.antt =====
-- steady_state_diagnostics.py: super-passes are filled one after the other.
pub mod Issues
use mathlib.Core.Path.{subst}
use native.Mathlib.Nat.{add-mul, zero-mul, mul-add-div_right, div-eq_of_lt}
use mathlib.Core.List.{append-nil, append_assoc}
use endpoints.Base.{
  ℕ, zero, suc, ◌+◌, ◌*◌, ◌/◌, ◌-◌, ◌≤◌, ◌<◌, Bool, true, false, ◌≡◌, ◌≢◌, refl, sym, ◌∙◌, ap,
  Option, none, some, List, [], ◌∷◌, ◌++◌, ◌==◌, if◌then◌else◌, if_true, if_false, length,
  length-append, arith, Bool-cases, inl, inr, ==→eq, ltb, lt→ltb, ◌&&◌,
}
use endpoints.Metrics.Collector.{
  SuperPassRollup, fresh_rollup, Collector, new_collector, modify_at, announce_phase, extend,
  mark_issue, assign,
}

-- Buckets that are full, numbered from `i` on.
abbrev pub AllFull : ℕ → ℕ → List SuperPassRollup → Type 0
AllFull size i [] = Unit {0}
AllFull size i (sp ∷ sps) = (sp.index ≡ i) × (sp.n_issued ≡ size) × AllFull size (i + 1) sps

-- What follows `q` full buckets: nothing, or bucket `q` with `r` issues.
abbrev pub IsTail : ℕ → ℕ → List SuperPassRollup → Type 0
IsTail q r [] = r ≡ 0
IsTail q r (sp ∷ []) = (0 < r) × (sp.index ≡ q) × (sp.n_issued ≡ r)
IsTail q r (_ ∷ (_ ∷ _)) = ⊥

pub record IsBucketed (c : Collector) : Type 0 where
  pub q : ℕ
  pub r : ℕ
  pub full : List SuperPassRollup
  pub tail : List SuperPassRollup
  pub positive : 0 < c.superpass_size
  pub counted : c.issue_counter ≡ q * c.superpass_size + r
  pub partly : r < c.superpass_size
  pub laid_out : c.series ≡ full ++ tail
  pub n_full : length full ≡ q
  pub all_full : AllFull c.superpass_size 0 full
  pub open_tail : IsTail q r tail

pub AllFull-append :
    (size i : ℕ) (xs : List SuperPassRollup) (sp : SuperPassRollup)
    → AllFull size i xs
    → sp.index ≡ i + length xs
    → sp.n_issued ≡ size
    → AllFull size i (xs ++ sp ∷ [])
AllFull-append size i [] sp h e n = (omega arith, n, tt)
AllFull-append size i (x ∷ xs) sp h e n =
    (h.0, h.1, AllFull-append size (i + 1) xs sp h.2 (omega arith) n)

pub modify_at-append :
    (f : SuperPassRollup → SuperPassRollup) (xs : List SuperPassRollup) (y : SuperPassRollup)
    → modify_at (length xs) f (xs ++ y ∷ []) ≡ xs ++ f y ∷ []
modify_at-append f [] y = refl
modify_at-append f (x ∷ xs) y = ap (◌∷◌ x) (modify_at-append f xs y)

-- `extend` leaves bucket `q`, with its `r` issues, after the full ones.
pub extend-opens :
    (q r : ℕ) (full tail : List SuperPassRollup)
    → length full ≡ q
    → IsTail q r tail
    → (sp : SuperPassRollup) × (extend (q + 1 - length (full ++ tail)) (full ++ tail)
        ≡ full ++ sp ∷ [])
      × (sp.index ≡ q)
      × (sp.n_issued ≡ r)
unfolding extend
extend-opens q r full [] e t =
    let one : q + 1 - length full ≡ 1 = omega arith in
    (
      fresh_rollup (length full),
      ap (λ l. extend (q + 1 - length l) l) (append-nil full) ∙ ap (λ k. extend k full) one,
      e,
      sym t,
    )
extend-opens q r full (sp ∷ []) e t =
    let none_missing : q + 1 - length (full ++ sp ∷ []) ≡ 0 =
      omega (arith, length-append full (sp ∷ [])) in
    (sp, ap (λ k. extend k (full ++ sp ∷ [])) none_missing, t.1, t.2)
extend-opens q r full (_ ∷ (_ ∷ _)) e t = absurd t

pub mark_issue-counts :
    (ts : ℕ) (sp : SuperPassRollup)
    → ((mark_issue ts sp).index ≡ sp.index) × ((mark_issue ts sp).n_issued ≡ sp.n_issued + 1)
unfolding mark_issue
mark_issue-counts ts sp = (refl, refl)

pub quotient : (q r size : ℕ) → 0 < size → r < size → (q * size + r) / size ≡ q
quotient q r size p h = mul-add-div_right p q r ∙ ap (λ k. q + k) (div-eq_of_lt h) ∙ omega arith

-- the series that `assign` leaves
pub assigned :
    (ts q r : ℕ) (full tail : List SuperPassRollup)
    → length full ≡ q
    → IsTail q r tail
    → (sp : SuperPassRollup) × (modify_at q
          (mark_issue ts)
          (extend (q + 1 - length (full ++ tail)) (full ++ tail))
        ≡ full ++ sp ∷ [])
      × (sp.index ≡ q)
      × (sp.n_issued ≡ r + 1)
assigned ts q r full tail e t =
    let (sp, opened, i, n) = extend-opens q r full tail e t in
    let (same, more) = mark_issue-counts ts sp in
    (
      mark_issue ts sp,
      ap (modify_at q (mark_issue ts)) opened
          ∙ ap (λ k. modify_at k (mark_issue ts) (full ++ sp ∷ [])) (sym e)
          ∙ modify_at-append (mark_issue ts) full sp,
      same ∙ i,
      more ∙ ap (λ k. k + 1) n,
    )

pub assign-eq :
    (ts q : ℕ) (c : Collector)
    → (c.superpass_size == 0) ≡ false
    → c.issue_counter / c.superpass_size ≡ q
    → assign ts c ≡ (
      some q,
      record c {
        issue_counter = c.issue_counter + 1;
        series = modify_at q (mark_issue ts) (extend (q + 1 - length c.series) c.series);
      },
    )
unfolding assign
assign-eq ts q c sized e =
    if_false _ _ _ sized
    ∙ ap
        (λ i. (
          some i,
          record c {
            issue_counter = c.issue_counter + 1;
            series = modify_at i (mark_issue ts) (extend (i + 1 - length c.series) c.series);
          },
        ))
        e
