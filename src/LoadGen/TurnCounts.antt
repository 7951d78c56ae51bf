-- ===== src/LoadGen/TurnCounts.antt =====
-- load_generator/agentic_inference_strategy.py: the number of samples that an agentic run is expected to
-- issue. `turn_counts` are the client turns of the conversations, in the order of the metadata.
pub mod Sums
pub mod Totals
use endpoints.Base.{ℕ, zero, suc, ◌+◌, Option, none, some, List, [], ◌∷◌, length, get_elem?}
use endpoints.LoadGen.SampleOrder.{
  Shuffled, new_shuffled, take_shuffled, Sequential, new_sequential, next_sequential,
}

abbrev pub counted : Option ℕ → Option ℕ → Option ℕ
counted none total = none
counted (some n) none = none
counted (some n) (some total) = some (n + total)

-- `turn_counts[i]`; `none` is an exception
abbrev pub turns_at : List ℕ → Option ℕ → Option ℕ
turns_at turn_counts none = none
turns_at turn_counts (some i) = get_elem? turn_counts i

unfoldable pub sum_turns : List ℕ → List (Option ℕ) → Option ℕ
sum_turns turn_counts [] = some 0
sum_turns turn_counts (i ∷ is) = counted (turns_at turn_counts i) (sum_turns turn_counts is)

-- the next `k` indices of the sequential order
unfoldable pub take_sequential : ℕ → Sequential → List (Option ℕ)
unfolding next_sequential
take_sequential zero s = []
take_sequential (suc k) s = let (i, t) = next_sequential s in some i ∷ take_sequential k t

-- an order that cannot be made raises
abbrev pub drawn_sequential : ℕ → Option Sequential → List (Option ℕ)
drawn_sequential k none = none ∷ []
drawn_sequential k (some s) = take_sequential k s

abbrev pub trajectory_count : List ℕ → Option ℕ → ℕ
trajectory_count turn_counts (some n) = n
trajectory_count turn_counts none = length turn_counts

module _ {G : Type 0} (shuffle : G → List ℕ → List ℕ × G) where
  abbrev pub drawn_shuffled : ℕ → Option (Shuffled G) → List (Option ℕ)
  drawn_shuffled k none = none ∷ []
  drawn_shuffled k (some s) = (take_shuffled shuffle k s).0

  -- the draws of an order of its own, which starts from a copy of the generator's state
  abbrev pub draws : Option G → ℕ → ℕ → List (Option ℕ)
  draws none n k = drawn_sequential k (new_sequential n)
  draws (some g) n k = drawn_shuffled k (new_shuffled g n)

  unfoldable pub expected_agentic_sample_count : List ℕ → Option ℕ → Option G → Option ℕ
  unfolding sum_turns
  expected_agentic_sample_count [] num_trajectories_to_issue rng = some 0
  expected_agentic_sample_count (c ∷ cs) num_trajectories_to_issue rng =
      sum_turns (c ∷ cs)
        (draws rng (length (c ∷ cs)) (trajectory_count (c ∷ cs) num_trajectories_to_issue))
