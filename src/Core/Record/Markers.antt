-- ===== src/Core/Record/Markers.antt =====
-- core/record.py: the two session events that decide how a session ends, as a reader of the stream of
-- events sees them.
use endpoints.Base.{
  Bool, true, false, ◌||◌, ◌≡◌, refl, ◌∙◌, ap, List, [], ◌∷◌, ◌++◌, if◌then◌else◌, Bool-cases, inl,
  inr,
}
use endpoints.Core.Record.{
  EventRecord, EventType, of_session, of_error, of_sample, started, ended, interrupted, phase_start,
  start_performance_tracking, stop_performance_tracking, stop_loadgen,
}

-- Whether an event is a marker of the end.
abbrev pub is_ended : EventType → Bool
is_ended (of_session ended) = true
is_ended _ = false

abbrev pub is_interrupted : EventType → Bool
is_interrupted (of_session interrupted) = true
is_interrupted _ = false

pub ended_alone : (e : EventType) → is_ended e ≡ true → is_interrupted e ≡ false
ended_alone (of_session ended) h = refl
ended_alone (of_session interrupted) h = absurd (cc)
ended_alone (of_session started) h = refl
ended_alone (of_session phase_start) h = refl
ended_alone (of_session start_performance_tracking) h = refl
ended_alone (of_session stop_performance_tracking) h = refl
ended_alone (of_session stop_loadgen) h = refl
ended_alone (of_error e) h = refl
ended_alone (of_sample e) h = refl

-- Where a session is: running, where the flag says that INTERRUPTED was seen, or over, where it says that
-- INTERRUPTED came before ENDED.
pub data Stage : Type 0 where
  running over : Bool → Stage

-- An independent reading of the stream of events, which looks at the two markers alone.
abbrev pub stage_after : Stage → List EventRecord → Stage
stage_after (over stopped) rs = over stopped
stage_after (running stopped) [] = running stopped
stage_after (running stopped) (r ∷ rs) =
    if is_ended r.event_type
    then over stopped
    else stage_after (running (is_interrupted r.event_type || stopped)) rs

pub stage_after-append :
    (st : Stage) (xs ys : List EventRecord)
    → stage_after st (xs ++ ys) ≡ stage_after (stage_after st xs) ys
stage_after-append (over i) xs ys = refl
stage_after-append (running i) [] ys = refl
stage_after-append (running i) (x ∷ xs) ys = elim (Bool-cases (is_ended x.event_type)) [
  | inl last ↦ rw last refl
  | inr other ↦ rw other (stage_after-append (running (is_interrupted x.event_type || i)) xs ys)
]

-- An event that is neither marker.
pub record IsOrdinary (e : EventType) : Type 0 where
  pub not_ended : is_ended e ≡ false
  pub not_interrupted : is_interrupted e ≡ false

-- An ordinary event leaves the stage.
pub stage_after_ordinary :
    (i : Bool) (xs : List EventRecord) (r : EventRecord)
    → stage_after (running false) xs ≡ running i
    → IsOrdinary r.event_type
    → stage_after (running false) (xs ++ r ∷ []) ≡ running i
stage_after_ordinary i xs r e o =
    stage_after-append (running false) xs (r ∷ [])
    ∙ ap (λ st. stage_after st (r ∷ [])) e
    ∙ rw (o.not_ended, o.not_interrupted) refl
