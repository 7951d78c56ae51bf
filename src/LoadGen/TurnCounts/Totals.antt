-- ===== src/LoadGen/TurnCounts/Totals.antt =====
-- load_generator/agentic_inference_strategy.py: what whole passes over the conversations count.
use mathlib.Core.List.{Perm}
use mathlib.Core.List.Perm
use native.Mathlib.Nat.{suc-mul, mod_self, mod-eq_of_lt}
use endpoints.Base.{
  ℕ, zero, suc, ◌+◌, ◌*◌, ◌%◌, ◌<◌, false, ◌==◌, ◌≡◌, refl, sym, ◌∙◌, ap, Option, none, some, List,
  [], ◌∷◌, ◌++◌, if_false, length, length-append, get_elem?, arith,
}
use endpoints.LoadGen.SampleOrder.{
  range, Shuffled, new_shuffled, next_shuffled, take_shuffled, Sequential, new_sequential,
  next_sequential,
}
use endpoints.LoadGen.SampleOrder.Passes.{AtPass, take_shuffled-Perm, length-range}
use endpoints.LoadGen.TurnCounts.{
  counted, sum_turns, take_sequential, drawn_sequential, drawn_shuffled, draws,
  expected_agentic_sample_count,
}
use endpoints.LoadGen.TurnCounts.Sums.{
  total, counted_assoc, snoc_split, get_at, sum_turns-append, sum_order,
}

module _ (counts : List ℕ) where
  abbrev at_index : ℕ → Sequential
  at_index c = record { n_samples = length counts; curr_idx = c }

  abbrev sum_from : ℕ → ℕ → Option ℕ
  sum_from k c = sum_turns counts (take_sequential k (at_index c))

  sum_step :
      (xs ys : List ℕ) (y k : ℕ)
      → counts ≡ xs ++ y ∷ ys
      → sum_from (suc k) (length xs)
        ≡ counted (some y) (sum_from k ((length xs + 1) % length counts))
  unfolding sum_turns take_sequential next_sequential
  sum_step xs ys y k e =
      ap (λ t. counted t (sum_from k ((length xs + 1) % length counts)))
        (ap (λ l. get_elem? l (length xs)) e ∙ get_at xs ys y)

  -- the draws from a conversation to the last one, and `k` draws from the first
  sum_rest :
      (ys xs : List ℕ) (y k : ℕ)
      → counts ≡ xs ++ y ∷ ys
      → sum_from (suc (length ys + k)) (length xs) ≡ counted (some (total (y ∷ ys))) (sum_from k 0)
  sum_rest [] xs y k e =
      let last : length xs + 1 ≡ length counts =
        omega (arith, ap length e, length-append xs (y ∷ [])) in
      let none_more : y ≡ y + 0 = omega arith in
      ap (λ m. sum_from (suc m) (length xs)) (omega arith)
      ∙ sum_step xs [] y k e
      ∙ ap (λ c. counted (some y) (sum_from k c))
          (ap (λ c. c % length counts) last ∙ mod_self (length counts))
      ∙ ap (λ t. counted (some t) (sum_from k 0)) none_more
  sum_rest (z ∷ ys) xs y k e =
      let size = ap length e ∙ length-append xs (y ∷ z ∷ ys) in
      let snoc : length (xs ++ y ∷ []) ≡ length xs + 1 = length-append xs (y ∷ []) in
      let one_more : suc (suc (length ys) + k) ≡ suc (suc (length ys + k)) = omega arith in
      ap (λ m. sum_from m (length xs)) one_more
      ∙ sum_step xs (z ∷ ys) y (suc (length ys + k)) e
      ∙ ap (λ c. counted (some y) (sum_from (suc (length ys + k)) c))
          (mod-eq_of_lt (omega (arith, size)) ∙ sym snoc)
      ∙ ap (counted (some y)) (sum_rest ys (xs ++ y ∷ []) z k (e ∙ snoc_split xs (z ∷ ys) y))
      ∙ sym (counted_assoc (some y) (some (total (z ∷ ys))) (sum_from k 0))

  sum_pass :
      (d : List ℕ) (k : ℕ)
      → counts ≡ d
      → 0 < length counts
      → sum_from (length counts + k) 0 ≡ counted (some (total counts)) (sum_from k 0)
  sum_pass [] k e h = absurd (omega (arith, h, ap length e))
  sum_pass (y ∷ ys) k e h =
      let size : length counts + k ≡ suc (length ys + k) = omega (arith, ap length e) in
      ap (λ m. sum_from m 0) size
      ∙ sum_rest ys [] y k e
      ∙ ap (λ l. counted (some (total l)) (sum_from k 0)) (sym e)

  abbrev next_pass : ℕ → ℕ
  next_pass k = length counts + k * length counts

  next_pass-eq : (k : ℕ) → suc k * length counts ≡ next_pass k
  next_pass-eq k = omega (arith, suc-mul k (length counts))

  next_total : (k : ℕ) → some (total counts + k * total counts) ≡ some (suc k * total counts)
  next_total k = ap some (omega (arith, suc-mul k (total counts)))

  -- `k` passes of the sequential order
  sum_passes :
      (k : ℕ) → 0 < length counts → sum_from (k * length counts) 0 ≡ some (k * total counts)
  unfolding sum_turns take_sequential
  sum_passes zero h =
      let none_left : 0 * length counts ≡ 0 = omega arith in
      ap (λ m. sum_from m 0) none_left ∙ ap some (omega arith)
  sum_passes (suc k) h =
      ap (λ m. sum_from m 0) (next_pass-eq k)
      ∙ sum_pass counts (k * length counts) refl h
      ∙ ap (counted (some (total counts))) (sum_passes k h)
      ∙ next_total k

  module _ {G : Type 0} (shuffle : G → List ℕ → List ℕ × G)
      (permutes : (g : G) (xs : List ℕ) → Perm xs (shuffle g xs).0) where
    take_shuffled-add :
        (m k : ℕ) (s : Shuffled G)
        → (take_shuffled shuffle (m + k) s).0
          ≡ (take_shuffled shuffle m s).0
            ++ (take_shuffled shuffle k (take_shuffled shuffle m s).1).0
    unfolding take_shuffled
    take_shuffled-add zero k s =
        let none_before : 0 + k ≡ k = omega arith in
        ap (λ m. (take_shuffled shuffle m s).0) none_before
    take_shuffled-add (suc m) k s =
        let one_more : suc m + k ≡ suc (m + k) = omega arith in
        let (i, t) = next_shuffled shuffle s in
        ap (λ n. (take_shuffled shuffle n s).0) one_more ∙ ap (◌∷◌ i) (take_shuffled-add m k t)

    -- `k` passes of the shuffled order
    sum_shuffles :
        (k : ℕ) (s : Shuffled G)
        → 0 < length counts
        → AtPass (length counts) s
        → sum_turns counts (take_shuffled shuffle (k * length counts) s).0 ≡ some (k * total counts)
    unfolding sum_turns take_shuffled
    sum_shuffles zero s h at =
        let none_left : 0 * length counts ≡ 0 = omega arith in
        ap (λ m. sum_turns counts (take_shuffled shuffle m s).0) none_left ∙ ap some (omega arith)
    sum_shuffles (suc k) s h at =
        let n = length counts in
        let (order, is, p, again) = take_shuffled-Perm shuffle n s permutes h at in
        let t = (take_shuffled shuffle n s).1 in
        let later = (take_shuffled shuffle (k * n) t).0 in
        ap (λ m. sum_turns counts (take_shuffled shuffle m s).0) (next_pass-eq k)
        ∙ ap (sum_turns counts) (take_shuffled-add n (k * n) s)
        ∙ sum_turns-append counts (take_shuffled shuffle n s).0 later
        ∙ ap (λ l. counted (sum_turns counts l) (sum_turns counts later)) is
        ∙ ap (λ o. counted o (sum_turns counts later)) (sum_order counts order p)
        ∙ ap (counted (some (total counts))) (sum_shuffles k t h again)
        ∙ next_total k

nonzero : (n : ℕ) → 0 < n → (n == 0) ≡ false
nonzero n h = ground arith

first_order : {G : Type 0} (g : G) (n : ℕ) → Shuffled G
first_order g n = record { rng = g; index_order = range n; curr_idx = n + 1 }

first_order-AtPass : {G : Type 0} (g : G) (n : ℕ) → AtPass n (first_order g n)
unfolding first_order
first_order-AtPass g n = record {
  covers = Perm.refl (range n);
  exhausted = omega (arith, length-range n);
}

new_sequential-starts :
    (n : ℕ) → 0 < n → new_sequential n ≡ some (record { n_samples = n; curr_idx = 0 })
unfolding new_sequential
new_sequential-starts n h = if_false _ _ _ (nonzero n h)

new_shuffled-starts :
    {G : Type 0} (g : G) (n : ℕ) → 0 < n → new_shuffled g n ≡ some (first_order g n)
unfolding new_shuffled first_order
new_shuffled-starts g n h = if_false _ _ _ (nonzero n h)

module _ {G : Type 0} (shuffle : G → List ℕ → List ℕ × G)
    (permutes : (g : G) (xs : List ℕ) → Perm xs (shuffle g xs).0) where
  sum_draws :
      (counts : List ℕ)
      → 0 < length counts
      → (rng : Option G) (k : ℕ)
      → sum_turns counts (draws shuffle rng (length counts) (k * length counts))
        ≡ some (k * total counts)
  sum_draws counts h none k =
      let n = length counts in
      ap (λ o. sum_turns counts (drawn_sequential (k * n) o)) (new_sequential-starts n h)
      ∙ sum_passes counts k h
  sum_draws counts h (some g) k =
      let n = length counts in
      ap (λ o. sum_turns counts (drawn_shuffled shuffle (k * n) o)) (new_shuffled-starts g n h)
      ∙ sum_shuffles counts shuffle permutes k (first_order g n) h (first_order-AtPass g n)

-- Whichever order is used, where a shuffle permutes, a budget of `k` trajectories for each conversation expects `k` times the client turns of all conversations, and no budget expects them once.
pub expected_agentic_sample_count-total :
    {G : Type 0} (shuffle : G → List ℕ → List ℕ × G)
    → ((g : G) (xs : List ℕ) → Perm xs (shuffle g xs).0)
    → (turn_counts : List ℕ) (rng : Option G)
    → ((k : ℕ)
        → expected_agentic_sample_count shuffle turn_counts (some (k * length turn_counts)) rng
          ≡ some (k * total turn_counts))
      × (expected_agentic_sample_count shuffle turn_counts none rng ≡ some (total turn_counts))
unfolding expected_agentic_sample_count
expected_agentic_sample_count-total shuffle permutes [] rng = (λ k. ap some (omega arith), refl)
expected_agentic_sample_count-total shuffle permutes (c ∷ cs) rng =
    let n = length (c ∷ cs) in
    let positive : 0 < n = omega arith in
    let once : 1 * n ≡ n = omega arith in
    let total_once : 1 * total (c ∷ cs) ≡ total (c ∷ cs) = omega arith in
    (
      sum_draws shuffle permutes (c ∷ cs) positive rng,
      ap (λ m. sum_turns (c ∷ cs) (draws shuffle rng n m)) (sym once)
          ∙ sum_draws shuffle permutes (c ∷ cs) positive rng 1
          ∙ ap some total_once,
    )
