-- ===== src/Metrics/Collector/Buckets/Issues.antt =====
-- steady_state_diagnostics.py: every issue keeps the super-passes filled in order.
use mathlib.Core.Path.{subst}
use native.Mathlib.Nat.{add-mul, zero-mul}
use mathlib.Core.List.{append-nil}
use endpoints.Base.{
  ℕ, ◌+◌, ◌*◌, ◌/◌, ◌-◌, ◌<◌, Bool, true, false, ◌≡◌, ◌≢◌, refl, sym, ◌∙◌, ap, Option, some, List,
  [], ◌∷◌, ◌++◌, ◌==◌, if_true, if_false, length, length-append, arith, Bool-cases, inl, inr, ==→eq,
  ltb, lt→ltb, ◌&&◌,
}
use endpoints.Metrics.Collector.{
  SuperPassRollup, Collector, new_collector, modify_at, announce_phase, extend, mark_issue, assign,
}
use endpoints.Metrics.Collector.Buckets.{
  AllFull, AllFull-append, quotient, assigned, assign-eq, IsBucketed,
}

not_equal : (a b : ℕ) → (a == b) ≡ false → a ≢ b
not_equal a b e = ground arith

one_more_pass : (q size : ℕ) → (q + 1) * size ≡ q * size + size
one_more_pass q size = add-mul q 1 size ∙ omega arith

-- the collector after one more issue in bucket `q`, whose rollup is now `sp`
next-IsBucketed :
    (c d : Collector) (h : IsBucketed c) (sp : SuperPassRollup)
    → d.superpass_size ≡ c.superpass_size
    → d.issue_counter ≡ c.issue_counter + 1
    → d.series ≡ h.full ++ sp ∷ []
    → sp.index ≡ h.q
    → sp.n_issued ≡ h.r + 1
    → IsBucketed d
next-IsBucketed c d h sp same next laid i n = elim (Bool-cases (h.r + 1 == c.superpass_size)) [
  | inl filled ↦
      let size = ==→eq (h.r + 1) c.superpass_size filled in
      record {
        q = h.q + 1;
        r = 0;
        full = h.full ++ sp ∷ [];
        tail = [];
        positive = omega (arith, h.positive, same);
        counted =
            next
            ∙ ap (λ k. k + 1) h.counted
            ∙ omega (arith, one_more_pass h.q c.superpass_size)
            ∙ ap (λ m. (h.q + 1) * m + 0) (sym same);
        partly = omega (arith, h.positive, same);
        laid_out = laid ∙ sym (append-nil (h.full ++ sp ∷ []));
        n_full = length-append h.full (sp ∷ []) ∙ omega (arith, h.n_full);
        all_full =
            subst (λ m. AllFull m 0 (h.full ++ sp ∷ [])) (sym same)
              (AllFull-append c.superpass_size 0 h.full sp h.all_full
                (i ∙ sym h.n_full ∙ omega arith) (n ∙ size));
        open_tail = refl;
      }
  | inr room ↦ record {
    q = h.q;
    r = h.r + 1;
    full = h.full;
    tail = sp ∷ [];
    positive = omega (arith, h.positive, same);
    counted =
        next ∙ ap (λ k. k + 1) h.counted ∙ omega arith ∙ ap (λ m. h.q * m + (h.r + 1)) (sym same);
    partly = omega (arith, not_equal (h.r + 1) c.superpass_size room, h.partly, same);
    laid_out = laid;
    n_full = h.n_full;
    all_full = subst (λ m. AllFull m 0 h.full) (sym same) h.all_full;
    open_tail = (omega arith, i, n);
  }
]

and_true : (b : Bool) → b ≡ true → (b && true) ≡ true
and_true b e = rw e refl

zero_mul_add : (n : ℕ) → 0 * n + 0 ≡ 0
zero_mul_add n = omega (arith, zero-mul n)

sized : (size : ℕ) → 0 < size → (size == 0) ≡ false
sized size p = ground arith

assign-IsBucketed :
    (ts : ℕ) (c : Collector)
    → IsBucketed c
    → let (i, d) = assign ts c in
      (i ≡ some (c.issue_counter / c.superpass_size))
      × (c.issue_counter / c.superpass_size < length d.series)
      × IsBucketed d
assign-IsBucketed ts c h =
    let e =
      ap (λ k. k / c.superpass_size) h.counted
      ∙ quotient h.q h.r c.superpass_size h.positive h.partly in
    let (sp, laid, i, n) = assigned ts h.q h.r h.full h.tail h.n_full h.open_tail in
    let d = record c {
      issue_counter = c.issue_counter + 1;
      series = modify_at h.q (mark_issue ts) (extend (h.q + 1 - length c.series) c.series);
    } in
    let laid_out =
      ap (λ l. modify_at h.q (mark_issue ts) (extend (h.q + 1 - length l) l)) h.laid_out ∙ laid in
    subst
      (λ (p : Option ℕ × Collector).
        (p.0 ≡ some (c.issue_counter / c.superpass_size))
        × (c.issue_counter / c.superpass_size < length p.1.series)
        × IsBucketed p.1)
      (sym (assign-eq ts h.q c (sized c.superpass_size h.positive) e))
      (
        ap some (sym e),
        omega (arith, e, ap length laid_out, length-append h.full (sp ∷ []), h.n_full),
        next-IsBucketed c d h sp refl refl laid_out i n,
      )

-- the collector after the issues at these times
abbrev pub assign_all : List ℕ → Collector → Collector
assign_all [] c = c
assign_all (ts ∷ tss) c = assign_all tss (assign ts c).1

assign_all-IsBucketed :
    (tss : List ℕ) (c : Collector) → IsBucketed c → IsBucketed (assign_all tss c)
assign_all-IsBucketed [] c h = h
assign_all-IsBucketed (ts ∷ tss) c h =
    assign_all-IsBucketed tss (assign ts c).1 (assign-IsBucketed ts c h).2

announced-IsBucketed : (size : ℕ) → 0 < size → IsBucketed (announce_phase size new_collector)
unfolding announce_phase
announced-IsBucketed size p =
    subst IsBucketed (sym (if_true _ _ _ (and_true (ltb 0 size) (lt→ltb 0 size p)))) (record {
      q = 0;
      r = 0;
      full = [];
      tail = [];
      positive = p;
      counted = sym (zero_mul_add size);
      partly = p;
      laid_out = refl;
      n_full = refl;
      all_full = tt;
      open_tail = refl;
    })

assign-size : (ts : ℕ) (c : Collector) → (assign ts c).1.superpass_size ≡ c.superpass_size
unfolding assign
assign-size ts c = elim (Bool-cases (c.superpass_size == 0)) [
  | inl unsized ↦ ap (λ (p : Option ℕ × Collector). p.1.superpass_size) (if_true _ _ _ unsized)
  | inr sized_ok ↦ ap (λ (p : Option ℕ × Collector). p.1.superpass_size) (if_false _ _ _ sized_ok)
]

assign_all-size :
    (tss : List ℕ) (c : Collector) → (assign_all tss c).superpass_size ≡ c.superpass_size
assign_all-size [] c = refl
assign_all-size (ts ∷ tss) c = assign_all-size tss (assign ts c).1 ∙ assign-size ts c

announced-size : (size : ℕ) → 0 < size → (announce_phase size new_collector).superpass_size ≡ size
unfolding announce_phase
announced-size size p =
    ap Collector.superpass_size (if_true _ _ _ (and_true (ltb 0 size) (lt→ltb 0 size p)))

-- After a performance phase announces a positive number of turns and any issues are assigned, the issues fill the super-passes one after the other: all super-passes but the last are numbered in order and hold exactly the announced number of issues, and the next issue is assigned the super-pass of its number divided by that size, which then exists.
pub announced-assign :
    (size : ℕ) (tss : List ℕ) (ts : ℕ)
    → 0 < size
    → let c = assign_all tss (announce_phase size new_collector) in
      let (i, d) = assign ts c in
      IsBucketed c
      × (c.superpass_size ≡ size)
      × (i ≡ some (c.issue_counter / c.superpass_size))
      × (c.issue_counter / c.superpass_size < length d.series)
announced-assign size tss ts p =
    let h =
      assign_all-IsBucketed tss (announce_phase size new_collector) (announced-IsBucketed size p) in
    let (i, inside, later) =
      assign-IsBucketed ts (assign_all tss (announce_phase size new_collector)) h in
    (h, assign_all-size tss (announce_phase size new_collector) ∙ announced-size size p, i, inside)
