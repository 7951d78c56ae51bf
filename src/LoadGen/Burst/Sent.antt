-- ===== src/LoadGen/Burst/Sent.antt =====
-- load_generator/session.py: the samples sent by `issue`, and that results send none.
use endpoints.Base.{
  ℕ, ◌+◌, ◌≤◌, true, ◌&&◌, ◌≡◌, refl, sym, ◌∙◌, ap, Option, none, some, List, [], ◌∷◌, ◌++◌, ◌==◌,
  is_some, Bool-cases, inl, inr,
}
use endpoints.Base.Dict.{Dict, contains, erase}
use endpoints.Core.Output.{Json, PromptData}
use endpoints.Core.Record.{EventRecord}
use endpoints.LoadGen.State.{
  PhaseIssuer, Session, StopCheck, Query, publish, set_issuer, on_inflight_started,
  on_inflight_drained,
}
use endpoints.LoadGen.Prompt.{
  PromptChoice, chosen, unavailable, both_token_fields, choose_prompt, no_prompt,
}
use endpoints.LoadGen.Issuer.{
  overridden, Call, Answer, accepted, refused, raised, issue, send, send_choice, send_data,
  must_stop, registered, mark_inflight_complete,
}
use endpoints.LoadGen.Responses.{
  QueryResult, handle_query_result, route_result, handle_result, publish_all, events_of, info_of,
  is_warmup,
}
use endpoints.LoadGen.Burst.{plain}
use endpoints.LoadGen.Guard.{issued_of}
use endpoints.LoadGen.Guard.Methods.{must_stop_room, publish_all-issuer}

abbrev pub samples_of : List Query → List (Option (Dict Json))
samples_of [] = []
samples_of (q ∷ qs) = q.sample ∷ samples_of qs

samples_of-append :
    (xs : List Query) (q : Query) → samples_of (xs ++ q ∷ []) ≡ samples_of xs ++ q.sample ∷ []
samples_of-append [] q = refl
samples_of-append (x ∷ xs) q = ap (λ l. x.sample ∷ l) (samples_of-append xs q)

-- A session in a phase: how many samples it issued, which it sent, and its stop check.
pub record Tally (n : ℕ) (l : List (Option (Dict Json))) (k : StopCheck) (s : Session)
    : Type 0 where
  pub count : issued_of s.issuer ≡ n
  pub sent : samples_of s.sent ≡ l
  pub limits : s.check ≡ k
  pub present : is_some s.issuer ≡ true

send-Tally :
    (c : Call) (d : Option (Dict Json)) (q : PromptData) (p : PhaseIssuer) (s : Session)
    → Tally (p.issued_count + 1) (samples_of s.sent ++ d ∷ []) s.check (send c d q p s)
unfolding send publish on_inflight_started
send-Tally c d q p s = elim (Bool-cases (p.inflight == 0 && is_some s.idle_timeout_ns)) [
  | inl first ↦
      simp first
        (record { count = refl; sent = samples_of-append s.sent _; limits = refl; present = refl })
  | inr later ↦
      simp later
        (record { count = refl; sent = samples_of-append s.sent _; limits = refl; present = refl })
]

-- What a call of `issue` with the sample `d` leaves.
abbrev pub Issues :
    ℕ → List (Option (Dict Json)) → StopCheck → Option (Dict Json) → Answer × Session → Type 0
Issues n l k d (accepted id, t) =
    Tally (n + 1) (l ++ d ∷ []) k t × (k.counts_samples ≡ true → n + 1 ≤ k.total_samples)
Issues n l k d (refused, t) = Tally n l k t
Issues n l k d (raised, t) = Tally n l k t

choice-Issues :
    (c : Call) (d : Option (Dict Json)) (q : PromptChoice) (p : PhaseIssuer) (s : Session)
    → (s.check.counts_samples ≡ true → p.issued_count + 1 ≤ s.check.total_samples)
    → Issues p.issued_count (samples_of s.sent) s.check d (send_choice c d q p s)
unfolding send_choice
choice-Issues c d (chosen q) p s more = (send-Tally c d q p s, more)
choice-Issues c d (unavailable reason) p s more = (send-Tally c d no_prompt _ s, more)
choice-Issues c d both_token_fields p s more = record {
  count = refl;
  sent = refl;
  limits = refl;
  present = refl;
}

unchanged :
    (p : PhaseIssuer) (s : Session)
    → s.issuer ≡ some p
    → Tally p.issued_count (samples_of s.sent) s.check s
unchanged p s e = record {
  count = ap issued_of e;
  sent = refl;
  limits = refl;
  present = ap is_some e;
}

pub issue-Issues :
    (load_sample : ℕ → Option (Dict Json)) (c : Call) (idx : ℕ) (p : PhaseIssuer) (s : Session)
    → s.issuer ≡ some p
    → Issues p.issued_count
        (samples_of s.sent)
        s.check
        (load_sample idx)
        (issue load_sample (plain c idx) p s)
unfolding issue send_data overridden
issue-Issues load_sample c idx p s e = elim (Bool-cases (must_stop c.now p s)) [
  | inl stopping ↦ rw stopping (unchanged p s e)
  | inr going ↦ rw going (
      choice-Issues (plain c idx) (load_sample idx) (choose_prompt (load_sample idx))
        (registered (plain c idx) p) s (must_stop_room c.now p s going))
]

publish_all-Tally :
    (n : ℕ) (l : List (Option (Dict Json))) (k : StopCheck) (rs : List EventRecord) (s : Session)
    → Tally n l k s
    → Tally n l k (publish_all rs s)
unfolding publish_all publish
publish_all-Tally n l k [] s h = h
publish_all-Tally n l k (r ∷ rs) s h =
    publish_all-Tally n l k rs (publish r s)
      (record { count = h.count; sent = h.sent; limits = h.limits; present = h.present })

with_issuer :
    (n : ℕ) (l : List (Option (Dict Json))) (k : StopCheck) (p : PhaseIssuer) (s : Session)
    → s.issuer ≡ some p
    → Tally n l k s
    → p.issued_count ≡ n
with_issuer n l k p s e h = ap issued_of (sym e) ∙ h.count

complete-Tally :
    (n : ℕ) (l : List (Option (Dict Json))) (k : StopCheck) (p : PhaseIssuer) (s : Session)
    → s.issuer ≡ some p
    → Tally n l k s
    → Tally n l k (mark_inflight_complete p s)
unfolding mark_inflight_complete on_inflight_drained
complete-Tally n l k p s e h =
    let same = with_issuer n l k p s e h in
    elim (Bool-cases (p.inflight == 0)) [
      | inl idle ↦ simp idle h
      | inr busy ↦ simp busy (elim (Bool-cases (p.inflight == 1)) [
        | inl last ↦
            simp last (record { count = same; sent = h.sent; limits = h.limits; present = refl })
        | inr more ↦
            simp more (record { count = same; sent = h.sent; limits = h.limits; present = refl })
      ])
    ]

result-Tally :
    (n : ℕ) (l : List (Option (Dict Json))) (k : StopCheck) (r : QueryResult) (now : ℕ)
    (p : PhaseIssuer) (s : Session)
    → s.issuer ≡ some p
    → Tally n l k s
    → Tally n l k (handle_result r now p s)
unfolding handle_result
result-Tally n l k r now p s e h = elim (Bool-cases (contains r.id p.completed_uuids)) [
  | inl late ↦ rw late h
  | inr awaited ↦
      let q = record p { uuid_to_conv_info = erase r.id p.uuid_to_conv_info } in
      let es = events_of (info_of (some p) r.id) now r (is_warmup s.phase_type) in
      let t = publish_all es (set_issuer q s) in
      let kept : Tally n l k (set_issuer q s) = record {
        count = with_issuer n l k p s e h;
        sent = h.sent;
        limits = h.limits;
        present = refl;
      } in
      let published = publish_all-Tally n l k es (set_issuer q s) kept in
      let done = complete-Tally n l k q t (publish_all-issuer es (set_issuer q s)) published in
      rw awaited (elim (Bool-cases (contains r.id q.uuid_to_index)) [
        | inl known ↦ rw known (record {
          count = done.count;
          sent = done.sent;
          limits = done.limits;
          present = done.present;
        })
        | inr foreign ↦ rw foreign published
      ])
]

pub received-Tally :
    (n : ℕ) (l : List (Option (Dict Json))) (k : StopCheck) (r : QueryResult) (now : ℕ)
    (s : Session)
    → Tally n l k s
    → Tally n l k (handle_query_result r now s)
unfolding handle_query_result route_result
received-Tally n l k r now s h = routed s.issuer refl
  where
    routed : (o : Option PhaseIssuer) → s.issuer ≡ o → Tally n l k (route_result o r now s)
    routed none e = publish_all-Tally n l k _ s h
    routed (some p) e = result-Tally n l k r now p s e h
