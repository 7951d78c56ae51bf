-- ===== src/LoadGen/Guard/Methods.antt =====
-- load_generator/session.py: the methods of the issuer and the session keep the invariant of `Guard`.
use mathlib.Core.Path.{subst}
use endpoints.Base.{
  ℕ, ◌+◌, ◌≤◌, true, false, ◌&&◌, ◌≡◌, refl, Option, none, some, List, [], ◌∷◌, ◌==◌, is_some,
  Bool-cases, inl, inr,
}
use endpoints.Base.Dict.{Dict, contains, erase}
use endpoints.Core.Output.{Json, PromptData}
use endpoints.Core.Record.{EventRecord}
use endpoints.LoadGen.State.{
  PhaseIssuer, Session, publish, set_issuer, on_inflight_started, on_inflight_drained,
}
use endpoints.LoadGen.Prompt.{
  PromptChoice, chosen, unavailable, both_token_fields, choose_prompt, no_prompt,
}
use endpoints.LoadGen.Issuer.{
  Call, issue, register_skipped, send, send_choice, send_data, must_stop, mark_inflight_complete,
  registered,
}
use endpoints.LoadGen.Responses.{
  Response, result, chunk, QueryResult, handle_response, handle_query_result, route_result,
  handle_result, handle_chunk, publish_all, events_of, is_warmup, info_of, stamp,
}
use endpoints.LoadGen.Guard.{
  SafeAt, IsSafe, room, first_sent, after_first, last_done, one_done, one_skipped,
}

pub must_stop_room :
    (now : ℕ) (p : PhaseIssuer) (s : Session)
    → must_stop now p s ≡ false
    → s.check.counts_samples ≡ true
    → p.issued_count + 1 ≤ s.check.total_samples
unfolding must_stop
must_stop_room now p s e k =
    room s.stop_requested s.phase_stopped s.check.counts_samples _ p.issued_count
      s.check.total_samples e k

pub send-Safe :
    (c : Call) (d : Option (Dict Json)) (q : PromptData) (p : PhaseIssuer) (s : Session)
    → (s.check.counts_samples ≡ true → p.issued_count + 1 ≤ s.check.total_samples)
    → SafeAt (some p) s
    → IsSafe (send c d q p s)
unfolding send publish on_inflight_started
send-Safe c d q p s more h = elim (Bool-cases (p.inflight == 0 && is_some s.idle_timeout_ns)) [
  | inl first ↦ simp first (first_sent h more first c.started_ts)
  | inr later ↦ simp later (after_first h more later)
]

pub complete-Safe :
    (p : PhaseIssuer) (s : Session)
    → s.issuer ≡ some p
    → IsSafe s
    → IsSafe (mark_inflight_complete p s)
unfolding mark_inflight_complete on_inflight_drained
complete-Safe p s e h =
    let k : SafeAt (some p) s = subst (λ o. SafeAt o s) e h in
    elim (Bool-cases (p.inflight == 0)) [
      | inl idle ↦ simp idle h
      | inr busy ↦ simp busy (elim (Bool-cases (p.inflight == 1)) [
        | inl last ↦ simp last (last_done k)
        | inr more ↦ simp more (one_done k busy more)
      ])
    ]

pub send_choice-Safe :
    (c : Call) (d : Option (Dict Json)) (q : PromptChoice) (p : PhaseIssuer) (s : Session)
    → (s.check.counts_samples ≡ true → p.issued_count + 1 ≤ s.check.total_samples)
    → SafeAt (some p) s
    → IsSafe (send_choice c d q p s).1
unfolding send_choice
send_choice-Safe c d (chosen q) p s more h = send-Safe c d q p s more h
send_choice-Safe c d (unavailable reason) p s more h = send-Safe c d no_prompt _ s more h
send_choice-Safe c d both_token_fields p s more h = h

pub send_data-Safe :
    (c : Call) (d : Option (Option (Dict Json))) (p : PhaseIssuer) (s : Session)
    → (s.check.counts_samples ≡ true → p.issued_count + 1 ≤ s.check.total_samples)
    → s.issuer ≡ some p
    → IsSafe s
    → IsSafe (send_data c d p s).1
unfolding send_data
send_data-Safe c none p s more e h = h
send_data-Safe c (some d) p s more e h =
    send_choice-Safe c d (choose_prompt d) (registered c p) s more (subst (λ o. SafeAt o s) e h)

pub issue-Safe :
    (load_sample : ℕ → Option (Dict Json)) (c : Call) (p : PhaseIssuer) (s : Session)
    → s.issuer ≡ some p
    → IsSafe s
    → IsSafe (issue load_sample c p s).1
unfolding issue
issue-Safe load_sample c p s e h = elim (Bool-cases (must_stop c.now p s)) [
  | inl stopping ↦ rw stopping h
  | inr going ↦ rw going (send_data-Safe c _ p s (must_stop_room c.now p s going) e h)
]

pub skip-Safe :
    (c : Call) (p : PhaseIssuer) (s : Session)
    → s.issuer ≡ some p
    → IsSafe s
    → IsSafe (register_skipped c p s).1
unfolding register_skipped publish
skip-Safe c p s e h = elim (Bool-cases (must_stop c.now p s)) [
  | inl stopping ↦ rw stopping h
  | inr going ↦
      rw going (one_skipped (subst (λ o. SafeAt o s) e h) (must_stop_room c.now p s going))
]

pub publish_all-Safe : (rs : List EventRecord) (s : Session) → IsSafe s → IsSafe (publish_all rs s)
unfolding publish_all publish
publish_all-Safe [] s h = h
publish_all-Safe (r ∷ rs) s h = publish_all-Safe rs (publish r s) h

pub publish_all-issuer :
    (rs : List EventRecord) (s : Session) → (publish_all rs s).issuer ≡ s.issuer
unfolding publish_all publish
publish_all-issuer [] s = refl
publish_all-issuer (r ∷ rs) s = publish_all-issuer rs (publish r s)

pub result-Safe :
    (r : QueryResult) (now : ℕ) (p : PhaseIssuer) (s : Session)
    → s.issuer ≡ some p
    → IsSafe s
    → IsSafe (handle_result r now p s)
unfolding handle_result
result-Safe r now p s e h = elim (Bool-cases (contains r.id p.completed_uuids)) [
  | inl late ↦ rw late h
  | inr awaited ↦
      let q = record p { uuid_to_conv_info = erase r.id p.uuid_to_conv_info } in
      let es = events_of (info_of (some p) r.id) now r (is_warmup s.phase_type) in
      let t = publish_all es (set_issuer q s) in
      let k = publish_all-Safe es (set_issuer q s) (subst (λ o. SafeAt o s) e h) in
      rw awaited (elim (Bool-cases (contains r.id q.uuid_to_index)) [
        | inl known ↦ rw known (complete-Safe q t (publish_all-issuer es (set_issuer q s)) k)
        | inr foreign ↦ rw foreign k
      ])
]

pub route-Safe :
    (o : Option PhaseIssuer) (r : QueryResult) (now : ℕ) (s : Session)
    → s.issuer ≡ o
    → IsSafe s
    → IsSafe (route_result o r now s)
unfolding route_result
route-Safe none r now s e h =
    publish_all-Safe (events_of ("", none) now r (is_warmup s.phase_type)) s h
route-Safe (some p) r now s e h = result-Safe r now p s e h

pub stamp-Safe : (now : ℕ) (s : Session) → IsSafe s → IsSafe (stamp now s)
stamp-Safe now s h = elim (Bool-cases (is_some s.idle_timeout_ns)) [
  | inl guarded ↦ simp guarded h
  | inr free ↦ simp free h
]

pub response-Safe :
    (r : Response) (now : ℕ) (s : Session) → IsSafe s → IsSafe (handle_response r now s)
unfolding handle_response handle_query_result handle_chunk publish
response-Safe (result r) now s h =
    stamp-Safe now (route_result s.issuer r now s) (route-Safe s.issuer r now s refl h)
response-Safe (chunk c) now s h = stamp-Safe now (handle_chunk c now s) h
