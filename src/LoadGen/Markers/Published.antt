-- ===== src/LoadGen/Markers/Published.antt =====
-- load_generator/session.py: the events that responses publish.
use endpoints.Base.{
  ℕ, if_true, if_false, Bool, true, false, ◌≡◌, refl, sym, ◌∙◌, ap, Option, none, some, List, [],
  ◌∷◌, ◌++◌, is_some, Bool-cases, inl, inr,
}
use mathlib.Core.List.{append-nil, append_assoc}
use endpoints.Base.Dict.{contains, erase}
use endpoints.Core.Output.{ErrorData}
use endpoints.Core.Record.{EventRecord}
use endpoints.Core.Record.Markers.{Stage, running, over, stage_after, stage_after-append}
use endpoints.LoadGen.State.{ConvInfo, PhaseIssuer, Session, publish, set_issuer}
use endpoints.LoadGen.Responses.{
  Response, result, chunk, QueryResult, StreamChunk, handle_response, handle_query_result,
  handle_result, handle_chunk, publish_all, events_of, is_warmup, info_of, stamp, route_result,
}
use endpoints.LoadGen.Markers.{IsPlain, same, one_more, complete-published}

publish_all-published :
    (rs : List EventRecord) (s : Session) → (publish_all rs s).published ≡ s.published ++ rs
unfolding publish_all publish
publish_all-published [] s = sym (append-nil s.published)
publish_all-published (r ∷ rs) s =
    publish_all-published rs (publish r s) ∙ append_assoc s.published (r ∷ []) rs

late_result :
    (r : QueryResult) (now : ℕ) (p : PhaseIssuer) (s : Session)
    → contains r.id p.completed_uuids ≡ true
    → handle_result r now p s ≡ s
unfolding handle_result
late_result r now p s late = if_true _ _ _ late

-- A result that is not late publishes its events.
pub result-published :
    (r : QueryResult) (now : ℕ) (p : PhaseIssuer) (s : Session)
    → contains r.id p.completed_uuids ≡ false
    → (handle_result r now p s).published
      ≡ s.published ++ events_of (info_of (some p) r.id) now r (is_warmup s.phase_type)
unfolding handle_result
result-published r now p s awaited =
    let q = record p { uuid_to_conv_info = erase r.id p.uuid_to_conv_info } in
    let es = events_of (info_of (some p) r.id) now r (is_warmup s.phase_type) in
    rw awaited (elim (Bool-cases (contains r.id q.uuid_to_index)) [
      | inl known ↦ rw known (
          complete-published q (publish_all es (set_issuer q s))
          ∙ publish_all-published es (set_issuer q s))
      | inr foreign ↦ rw foreign (publish_all-published es (set_issuer q s))
    ])

-- The events of a result change no stage.
events-plain :
    (i : ConvInfo) (now : ℕ) (r : QueryResult) (warm : Bool) (st : Stage)
    → stage_after st (events_of i now r warm) ≡ st
events-plain i now r warm (over b) = refl
events-plain i now r warm (running b) = go r.error warm
  where
    go :
        (e : Option ErrorData) (w : Bool)
        → stage_after (running b) (events_of i now (record r { error = e }) w) ≡ running b
    go none true = refl
    go none false = refl
    go (some e) true = refl
    go (some e) false = refl

published_events-plain :
    (i : ConvInfo) (now : ℕ) (r : QueryResult) (warm : Bool) (s : Session)
    → IsPlain s.published
    → IsPlain (publish_all (events_of i now r warm) s).published
published_events-plain i now r warm s h =
    ap (stage_after (running false)) (publish_all-published (events_of i now r warm) s)
    ∙ stage_after-append (running false) s.published (events_of i now r warm)
    ∙ events-plain i now r warm (stage_after (running false) s.published)
    ∙ h

result-plain :
    (r : QueryResult) (now : ℕ) (p : PhaseIssuer) (s : Session)
    → IsPlain s.published
    → IsPlain (handle_result r now p s).published
result-plain r now p s h = elim (Bool-cases (contains r.id p.completed_uuids)) [
  | inl late ↦ same (ap Session.published (late_result r now p s late)) h
  | inr awaited ↦
      ap (stage_after (running false)) (result-published r now p s awaited)
      ∙ stage_after-append (running false) s.published _
      ∙ events-plain (info_of (some p) r.id) now r (is_warmup s.phase_type)
          (stage_after (running false) s.published)
      ∙ h
]

query_result-plain :
    (o : Option PhaseIssuer) (r : QueryResult) (now : ℕ) (s : Session)
    → IsPlain s.published
    → IsPlain (route_result o r now s).published
unfolding route_result
query_result-plain none r now s h =
    published_events-plain ("", none) now r (is_warmup s.phase_type) s h
query_result-plain (some p) r now s h = result-plain r now p s h

chunk-plain :
    (c : StreamChunk) (now : ℕ) (s : Session)
    → IsPlain s.published
    → IsPlain (handle_chunk c now s).published
unfolding handle_chunk publish
chunk-plain c now s h = elim (Bool-cases c.first_chunk) [
  | inl first ↦
      one_more _ s.published refl (simp first (record { not_ended = refl; not_interrupted = refl }))
        h
  | inr later ↦
      one_more _ s.published refl (simp later (record { not_ended = refl; not_interrupted = refl }))
        h
]

stamp-plain : (now : ℕ) (t : Session) → IsPlain t.published → IsPlain (stamp now t).published
stamp-plain now t h = elim (Bool-cases (is_some t.idle_timeout_ns)) [
  | inl guarded ↦ same (ap Session.published (if_true _ _ _ guarded)) h
  | inr free ↦ same (ap Session.published (if_false _ _ _ free)) h
]

pub response-plain :
    (r : Response) (now : ℕ) (s : Session)
    → IsPlain s.published
    → IsPlain (handle_response r now s).published
unfolding handle_response handle_query_result
response-plain (result r) now s h =
    stamp-plain now (handle_query_result r now s) (query_result-plain s.issuer r now s h)
response-plain (chunk c) now s h = stamp-plain now (handle_chunk c now s) (chunk-plain c now s h)
