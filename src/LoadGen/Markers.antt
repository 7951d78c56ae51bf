-- ===== src/LoadGen/Markers.antt =====
-- load_generator/session.py: which events end the stream that a session publishes.
pub mod Published
use endpoints.Base.{
  ℕ, zero, suc, if_true, if_false, ◌-◌, Bool, true, false, ◌&&◌, ◌||◌, ◌≡◌, refl, sym, ◌∙◌, ap,
  Option, none, some, List, [], ◌∷◌, ◌++◌, ◌==◌, ltb, is_some, Bool-cases, inl, inr,
}
use mathlib.Core.List.{append-nil, append_assoc}
use endpoints.Base.Dict.{Dict, contains, erase}
use endpoints.Core.Output.{Json, PromptData, ErrorData}
use endpoints.Core.Record.{EventRecord, of_sample, issued}
use endpoints.Core.Record.Markers.{
  Stage, running, over, stage_after, stage_after-append, IsOrdinary, stage_after_ordinary,
}
use endpoints.LoadGen.State.{
  ConvInfo, PhaseIssuer, Session, publish, set_issuer, on_inflight_started, on_inflight_drained,
  stop, stop_current_phase,
}
use endpoints.LoadGen.Prompt.{
  choose_prompt, no_prompt, PromptChoice, chosen, unavailable, both_token_fields,
}
use endpoints.LoadGen.Issuer.{
  Call, issue, register_skipped, send, send_choice, send_data, must_stop, issued_record, registered,
  mark_inflight_complete,
}
use endpoints.LoadGen.Responses.{
  Response, result, chunk, QueryResult, StreamChunk, handle_response, handle_query_result,
  handle_result, handle_chunk, publish_all, events_of, fire_timer, expire, fire_guarded, started_of,
  inflight_of, is_warmup, info_of, stamp, route_result, last_progress,
}

-- A stream with neither marker.
abbrev pub IsPlain : List EventRecord → Type 0
IsPlain rs = stage_after (running false) rs ≡ running false

pub same : {xs ys : List EventRecord} → ys ≡ xs → IsPlain xs → IsPlain ys
same e h = ap (stage_after (running false)) e ∙ h

pub one_more :
    (r : EventRecord) (xs : List EventRecord) {ys : List EventRecord}
    → ys ≡ xs ++ r ∷ []
    → IsOrdinary r.event_type
    → IsPlain xs
    → IsPlain ys
one_more r xs e o h = ap (stage_after (running false)) e ∙ stage_after_ordinary false xs r h o

-- Methods that publish nothing ---------------------------------------------------------------------

pub started-published : (s : Session) → (on_inflight_started s).published ≡ s.published
unfolding on_inflight_started
started-published s = refl

pub complete-published :
    (p : PhaseIssuer) (s : Session) → (mark_inflight_complete p s).published ≡ s.published
unfolding mark_inflight_complete on_inflight_drained
complete-published p s = elim (Bool-cases (p.inflight == 0)) [
  | inl idle ↦ simp idle refl
  | inr busy ↦ simp busy (elim (Bool-cases (p.inflight == 1)) [
    | inl last ↦ simp last refl
    | inr more ↦ simp more refl
  ])
]

pub stop_phase-published : (s : Session) → (stop_current_phase s).published ≡ s.published
unfolding stop_current_phase
stop_phase-published s = elim (Bool-cases s.strategy_running) [
  | inl active ↦ simp active refl
  | inr ended_before ↦ simp ended_before refl
]

pub expire-published :
    (timeout now begin : ℕ) (s : Session) → (expire timeout now begin s).published ≡ s.published
unfolding expire stop
expire-published timeout now begin s =
    elim (Bool-cases (ltb (now - last_progress s.last_progress_ns begin) timeout)) [
      | inl early ↦ simp early refl
      | inr late ↦ simp late refl
    ]

pub guarded-published :
    (now : ℕ) (t : Option ℕ) (p : Option PhaseIssuer) (n : ℕ) (b : Option ℕ) (s : Session)
    → (fire_guarded now t p n b s).published ≡ s.published
unfolding fire_guarded
guarded-published now (some t) (some p) (suc n) (some b) s = expire-published t now b s
guarded-published now (some t) (some p) (suc n) none s = refl
guarded-published now (some t) (some p) zero b s = refl
guarded-published now (some t) none n b s = refl
guarded-published now none p n b s = refl

pub timer-published : (now : ℕ) (s : Session) → (fire_timer now s).published ≡ s.published
unfolding fire_timer
timer-published now s = elim (Bool-cases (s.done || s.stop_requested)) [
  | inl finished ↦ ap Session.published (if_true _ _ _ finished)
  | inr active ↦
      ap Session.published (if_false _ _ _ active)
      ∙ guarded-published now s.idle_timeout_ns s.issuer (inflight_of s.issuer)
          (started_of s.issuer) s
]

-- Methods that publish ordinary events -------------------------------------------------------------

pub send-published :
    (c : Call) (d : Option (Dict Json)) (q : PromptData) (p : PhaseIssuer) (s : Session)
    → (send c d q p s).published ≡ s.published ++ issued_record c c.ts q ∷ []
unfolding send publish
send-published c d q p s = elim (Bool-cases (p.inflight == 0 && is_some s.idle_timeout_ns)) [
  | inl first ↦ rw first (started-published _)
  | inr later ↦ rw later refl
]

pub plain_issued : IsOrdinary (of_sample issued)
plain_issued = record { not_ended = refl; not_interrupted = refl }

pub send-plain :
    (c : Call) (d : Option (Dict Json)) (q : PromptData) (p : PhaseIssuer) (s : Session)
    → IsPlain s.published
    → IsPlain (send c d q p s).published
send-plain c d q p s h =
    one_more (issued_record c c.ts q) s.published (send-published c d q p s) plain_issued h

pub send_choice-plain :
    (c : Call) (d : Option (Dict Json)) (q : PromptChoice) (p : PhaseIssuer) (s : Session)
    → IsPlain s.published
    → IsPlain (send_choice c d q p s).1.published
unfolding send_choice
send_choice-plain c d (chosen q) p s h = send-plain c d q p s h
send_choice-plain c d (unavailable reason) p s h = send-plain c d no_prompt _ s h
send_choice-plain c d both_token_fields p s h = h

pub send_data-plain :
    (c : Call) (d : Option (Option (Dict Json))) (p : PhaseIssuer) (s : Session)
    → IsPlain s.published
    → IsPlain (send_data c d p s).1.published
unfolding send_data
send_data-plain c none p s h = h
send_data-plain c (some d) p s h = send_choice-plain c d (choose_prompt d) (registered c p) s h

pub issue-plain :
    (load_sample : ℕ → Option (Dict Json)) (c : Call) (p : PhaseIssuer) (s : Session)
    → IsPlain s.published
    → IsPlain (issue load_sample c p s).1.published
unfolding issue
issue-plain load_sample c p s h = elim (Bool-cases (must_stop c.now p s)) [
  | inl stopping ↦ rw stopping h
  | inr going ↦ rw going (send_data-plain c _ p s h)
]

pub skip-plain :
    (c : Call) (p : PhaseIssuer) (s : Session)
    → IsPlain s.published
    → IsPlain (register_skipped c p s).1.published
unfolding register_skipped publish
skip-plain c p s h = elim (Bool-cases (must_stop c.now p s)) [
  | inl stopping ↦ rw stopping h
  | inr going ↦ rw going (one_more (issued_record c c.ts no_prompt) s.published refl plain_issued h)
]
