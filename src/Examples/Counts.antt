-- ===== src/Examples/Counts.antt =====
-- The expected number of samples of an agentic run at concrete inputs.
use endpoints.Base.{ℕ, ◌*◌, ◌≡◌, refl, none, some, List, [], ◌∷◌}
use endpoints.LoadGen.SampleOrder.{new_sequential, next_sequential}
use endpoints.LoadGen.TurnCounts.{expected_agentic_sample_count, sum_turns, take_sequential}
use endpoints.LoadGen.TurnCounts.Totals.{expected_agentic_sample_count-total}
use endpoints.Examples.Searches.{turn_round, turn_round-Perm}

-- three conversations
abbrev three_counts : List ℕ
three_counts = 2 ∷ 5 ∷ 1 ∷ []

-- a budget that ends within the second pass
four_trajectories : expected_agentic_sample_count turn_round three_counts (some 4) none ≡ some 10
unfolding expected_agentic_sample_count sum_turns take_sequential new_sequential next_sequential
four_trajectories = refl

expected_agentic_sample_count-total_example :
    ((k : ℕ)
      → expected_agentic_sample_count turn_round three_counts (some (k * 3)) (some 7)
        ≡ some (k * 8))
    × (expected_agentic_sample_count turn_round three_counts none (some 7) ≡ some 8)
expected_agentic_sample_count-total_example =
    expected_agentic_sample_count-total turn_round turn_round-Perm three_counts (some 7)
