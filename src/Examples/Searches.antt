-- ===== src/Examples/Searches.antt =====
-- Early stopping, sample orders, conversations and the liveness timer at concrete inputs.
use mathlib.Core.List.{Perm, reverse, reverse_perm}
use mathlib.Core.List.Perm
use endpoints.Base.{
  ℕ, ◌+◌, ◌-◌, ltb, ◌%◌, ◌<◌, Bool, true, false, ◌≡◌, refl, none, some, ◌⊎◌, List, [], ◌∷◌, String,
  map, arith,
}
use endpoints.Base.Dict.{lookup}
use endpoints.Metrics.EarlyStopping.{
  bracket, least_between, Floats, found, value_error, validate_domain, find_min_passing,
}
use endpoints.LoadGen.State.{PhaseIssuer, new_issuer, Session, new_session}
use endpoints.LoadGen.Responses.{fire_timer}
use endpoints.LoadGen.Guard.Deadline.{IsRetired, IsStalled, IsWaiting, fire_timer-deadline}
use endpoints.LoadGen.SampleOrder.{
  Shuffled, take_shuffled, range, Sequential, new_sequential, next_sequential, advance,
}
use endpoints.LoadGen.SampleOrder.Passes.{AtPass, take_shuffled-Perm, next_sequential-mod}
use endpoints.LoadGen.Conversation.{ConversationState, Conversations, fresh_state, mark_all}
use endpoints.LoadGen.Conversation.Turns.{IsLater, mark_all-IsLater}

-- numbers of hundredths, and odds of one hundredth less for each query
abbrev hundredths : Floats
hundredths = record { F = ℕ; less = ltb; minus = λ a b. a - b; zero_point = 0; one_point = 100 }

abbrev linear : ℕ → ℕ → ℕ → ℕ → ℕ
linear h t p d = (100 + t) - h

abbrev enough : ℕ → ℕ
enough t = 100 + t

least_for_two : find_min_passing hundredths linear 100 2 90 0 95 ≡ found 98
unfolding find_min_passing bracket least_between validate_domain
least_for_two = refl

no_percentile : find_min_passing hundredths linear 100 2 100 0 95 ≡ value_error
unfolding find_min_passing validate_domain
no_percentile = refl

abbrev busy_issuer : PhaseIssuer
busy_issuer = record (new_issuer []) {
  inflight = 1;
  inflight_started_ns = some 10;
  issued_count = 1;
}

abbrev waiting_session : Session
waiting_session = record (new_session (some 100)) {
  issuer = some busy_issuer;
  last_progress_ns = some 30;
  timer = some 100;
}

fire_timer-deadline_example :
    IsRetired waiting_session (fire_timer 110 waiting_session)
    ⊎ (IsWaiting waiting_session (fire_timer 110 waiting_session) 110
        ⊎ IsStalled waiting_session (fire_timer 110 waiting_session) 110)
fire_timer-deadline_example =
    fire_timer-deadline 110 waiting_session
      (λ begin e. let same : 10 ≡ begin = cc in omega (arith, same))
      (λ at e. let same : 30 ≡ at = cc in omega (arith, same))

-- a generator that turns the list round
abbrev pub turn_round : ℕ → List ℕ → List ℕ × ℕ
turn_round g xs = (reverse xs, g + 1)

pub turn_round-Perm : (g : ℕ) (xs : List ℕ) → Perm xs (turn_round g xs).0
turn_round-Perm g xs = Perm.symm (reverse_perm xs)

abbrev new_order : Shuffled ℕ
new_order = record { rng = 0; index_order = 0 ∷ 1 ∷ 2 ∷ []; curr_idx = 4 }

new_order-AtPass : AtPass 3 new_order
unfolding range
new_order-AtPass = record { covers = Perm.refl _; exhausted = omega arith }

take_shuffled-Perm_example :
    let (is, t) = take_shuffled turn_round 3 new_order in
    (order : List ℕ) × (is ≡ map some order) × Perm (range 3) order × AtPass 3 t
take_shuffled-Perm_example =
    take_shuffled-Perm turn_round 3 new_order turn_round-Perm (omega arith) new_order-AtPass

abbrev five_samples : Sequential
five_samples = record { n_samples = 5; curr_idx = 0 }

five_accepted : new_sequential 5 ≡ some five_samples
unfolding new_sequential
five_accepted = refl

next_sequential-mod_example :
    let i = (next_sequential (advance 7 five_samples)).0 in (i ≡ 7 % 5) × (i < 5)
next_sequential-mod_example = next_sequential-mod 5 7 five_samples five_accepted

abbrev two_conversations : Conversations
two_conversations = ("x", fresh_state "x" (some 2)) ∷ ("y", fresh_state "y" none) ∷ []

abbrev responses : List (String × Bool)
responses = ("x", false) ∷ ("y", true) ∷ ("x", true) ∷ []

mark_all-IsLater_example :
    (n : Conversations) × (t : ConversationState) × (mark_all responses two_conversations ≡ some n)
    × (lookup "x" n ≡ some t)
    × IsLater (fresh_state "x" (some 2)) t 2 1
unfolding lookup
mark_all-IsLater_example =
    mark_all-IsLater responses "x" two_conversations (fresh_state "x" (some 2)) refl refl
