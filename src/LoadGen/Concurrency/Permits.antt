-- ===== src/LoadGen/Concurrency/Permits.antt =====
-- load_generator/strategy.py: permits and requests in flight always add up to the target.
pub mod Turns
use mathlib.Core.Path.{subst}
use endpoints.Base.{
  ℕ, zero, suc, ◌+◌, ◌-◌, ◌≤◌, ◌<◌, Bool, true, false, ◌&&◌, ◌||◌, ◌≡◌, refl, sym, ◌∙◌, ap, Option,
  none, some, List, [], ◌∷◌, ◌++◌, String, ◌==◌, if◌then◌else◌, if_true, if_false, is_some, length,
  length-append, arith, Bool-cases, Option-cases, inl, inr, ==→eq,
}
use endpoints.Base.Dict.{Dict, contains, erase}
use endpoints.Core.Output.{Json, PromptData}
use endpoints.Core.Record.{EventRecord}
use endpoints.LoadGen.State.{
  PhaseIssuer, Session, publish, set_issuer, on_inflight_started, on_inflight_drained,
}
use endpoints.LoadGen.Prompt.{
  PromptChoice, chosen, unavailable, both_token_fields, choose_prompt, no_prompt,
}
use endpoints.LoadGen.Issuer.{
  Call, Answer, accepted, refused, raised, issue, send, send_choice, send_data, must_stop,
  registered, mark_inflight_complete,
}
use endpoints.LoadGen.Responses.{
  QueryResult, handle_query_result, route_result, handle_result, publish_all, events_of, info_of,
  is_warmup, inflight_of,
}
use endpoints.LoadGen.Guard.Methods.{publish_all-issuer}
use endpoints.LoadGen.Concurrency.{
  Concurrency, new_concurrency, after_issue, next_issue, receive, issue_at, Turn, next, got,
  take_turn, take_turns,
}

-- what an issue adds to the requests in flight
abbrev pub gained : Answer → ℕ
gained (accepted _) = 1
gained refused = 0
gained raised = 0

pub send-inflight :
    (c : Call) (d : Option (Dict Json)) (q : PromptData) (p : PhaseIssuer) (s : Session)
    → inflight_of (send c d q p s).issuer ≡ p.inflight + 1
unfolding send publish on_inflight_started
send-inflight c d q p s = elim (Bool-cases (p.inflight == 0 && is_some s.idle_timeout_ns)) [
  | inl first ↦ ap (λ (t : Session). inflight_of t.issuer) (if_true _ _ _ first)
  | inr later ↦ ap (λ (t : Session). inflight_of t.issuer) (if_false _ _ _ later)
]

abbrev pub Gains : ℕ → Answer × Session → Type 0
Gains n (a, t) = inflight_of t.issuer ≡ n + gained a

pub choice-Gains :
    (c : Call) (d : Option (Dict Json)) (q : PromptChoice) (p : PhaseIssuer) (s : Session)
    → Gains p.inflight (send_choice c d q p s)
unfolding send_choice
choice-Gains c d (chosen q) p s = send-inflight c d q p s
choice-Gains c d (unavailable reason) p s = send-inflight c d no_prompt _ s
choice-Gains c d both_token_fields p s = omega arith

pub data-Gains :
    (c : Call) (d : Option (Option (Dict Json))) (p : PhaseIssuer) (s : Session)
    → s.issuer ≡ some p
    → Gains p.inflight (send_data c d p s)
unfolding send_data
data-Gains c none p s e = ap inflight_of e ∙ omega arith
data-Gains c (some d) p s e = choice-Gains c d (choose_prompt d) (registered c p) s

pub issue-Gains :
    (load_sample : ℕ → Option (Dict Json)) (c : Call) (p : PhaseIssuer) (s : Session)
    → s.issuer ≡ some p
    → Gains p.inflight (issue load_sample c p s)
unfolding issue
issue-Gains load_sample c p s e = elim (Bool-cases (must_stop c.now p s)) [
  | inl stopping ↦
      subst (Gains p.inflight) (sym (if_true _ _ _ stopping)) (ap inflight_of e ∙ omega arith)
  | inr going ↦ subst (Gains p.inflight) (sym (if_false _ _ _ going)) (data-Gains c _ p s e)
]

pub publish_all-told :
    (rs : List EventRecord) (s : Session) → (publish_all rs s).strategy_told ≡ s.strategy_told
unfolding publish_all publish
publish_all-told [] s = refl
publish_all-told (r ∷ rs) s = publish_all-told rs (publish r s)

-- A completion takes one request off, and the strategy was told nothing yet.
pub complete_lem :
    (p : PhaseIssuer) (s : Session)
    → 0 < p.inflight
    → let t = mark_inflight_complete p s in
      (inflight_of t.issuer + 1 ≡ p.inflight) × (t.strategy_told ≡ s.strategy_told)
unfolding mark_inflight_complete on_inflight_drained
complete_lem p s busy =
    let some_left : (p.inflight == 0) ≡ false = ground arith in
    let Done : Session → Type 0 =
      λ t. (inflight_of t.issuer + 1 ≡ p.inflight) × (t.strategy_told ≡ s.strategy_told) in
    elim (Bool-cases (p.inflight == 1)) [
      | inl last ↦
          let one = ==→eq p.inflight 1 last in
          subst Done (sym (if_false _ _ _ some_left ∙ if_true _ _ _ last)) (omega arith, refl)
      | inr more ↦
          subst Done (sym (if_false _ _ _ some_left ∙ if_false _ _ _ more)) (omega arith, refl)
    ]

-- What a result takes off the requests in flight it gives back as permits.
abbrev pub Balanced : ℕ → ℕ → Session → Type 0
Balanced inflight told t =
    (n : ℕ) × (inflight_of t.issuer + n ≡ inflight) × (length t.strategy_told ≡ told + n)

pub result-Balanced :
    (r : QueryResult) (now : ℕ) (p : PhaseIssuer) (s : Session)
    → s.issuer ≡ some p
    → 0 < p.inflight
    → Balanced p.inflight (length s.strategy_told) (handle_result r now p s)
unfolding handle_result
result-Balanced r now p s e busy = elim (Bool-cases (contains r.id p.completed_uuids)) [
  | inl late ↦
      subst (Balanced p.inflight (length s.strategy_told)) (sym (if_true _ _ _ late))
        (0, ap (λ o. inflight_of o + 0) e ∙ omega arith, omega arith)
  | inr awaited ↦
      let q = record p { uuid_to_conv_info = erase r.id p.uuid_to_conv_info } in
      let es = events_of (info_of (some p) r.id) now r (is_warmup s.phase_type) in
      let t = publish_all es (set_issuer q s) in
      let told = publish_all-told es (set_issuer q s) in
      let (one_less, same) = complete_lem q t busy in
      subst (Balanced p.inflight (length s.strategy_told)) (sym (if_false _ _ _ awaited))
        (elim (Bool-cases (contains r.id q.uuid_to_index)) [
          | inl known ↦
              subst (Balanced p.inflight (length s.strategy_told)) (sym (if_true _ _ _ known)) (
                1,
                one_less,
                length-append (mark_inflight_complete q t).strategy_told (r.id ∷ [])
                    ∙ ap (λ l. length l + 1) (same ∙ told),
              )
          | inr foreign ↦
              subst (Balanced p.inflight (length s.strategy_told)) (sym (if_false _ _ _ foreign)) (
                0,
                ap (λ o. inflight_of o + 0) (publish_all-issuer es (set_issuer q s)) ∙ omega arith,
                ap length told ∙ omega arith,
              )
        ])
]

pub both_false : (b : Bool) (n : ℕ) → (b || n == 0) ≡ false → (b ≡ false) × (0 < n)
both_false b n e = ground arith

pub routed :
    (r : QueryResult) (now : ℕ) (o : Option PhaseIssuer) (s : Session)
    → s.issuer ≡ o
    → 0 < inflight_of o
    → Balanced (inflight_of o) (length s.strategy_told) (route_result o r now s)
unfolding route_result
routed r now none s e busy = absurd (omega arith)
routed r now (some p) s e busy = result-Balanced r now p s e busy
