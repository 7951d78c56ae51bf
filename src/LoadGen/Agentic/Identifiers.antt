-- ===== src/LoadGen/Agentic/Identifiers.antt =====
-- load_generator/session.py: the identifiers of the queries that the session's issuer gives the strategy.
use endpoints.Base.{
  ℕ, ◌+◌, ◌<◌, ◌≡◌, refl, sym, ap, ◌∙◌, Option, none, some, String, if_both, arith, ◌⊎◌, inl, inr,
}
use endpoints.Base.Dict.{Dict}
use endpoints.Core.Output.{Json}
use endpoints.LoadGen.State.{PhaseIssuer, Session}
use endpoints.LoadGen.Prompt.{PromptChoice, chosen, unavailable, both_token_fields, choose_prompt}
use endpoints.LoadGen.Issuer.{
  Call, Answer, refused, accepted, raised, issue, send_data, send_choice, overridden, must_stop,
  register_skipped, registered,
}
use endpoints.LoadGen.Trajectories.{ConversationTurn}
use endpoints.LoadGen.Agentic.Linked.{GivesFresh}
use endpoints.LoadGen.Agentic.OnSession.{
  Stamp, Desk, call_of, answered, issue_by, identifier, skip_by, stop_by, time_out_by,
  session_issuer,
}

module _ (load_sample : ℕ → Option (Dict Json)) (stamps : ℕ → Stamp) where
  -- the identifier of an accepted call is the one that it was given
  issue-accepted :
      (c : Call) (p : PhaseIssuer) (s : Session) (q : String)
      → (issue load_sample c p s).0 ≡ accepted q
      → c.query_id ≡ q
  unfolding issue send_data send_choice
  issue-accepted c p s q =
      if_both (λ (r : Answer × Session). r.0 ≡ accepted q → c.query_id ≡ q) (must_stop c.now p s)
        (λ _ e. absurd (cc))
        (λ _. data-accepted (overridden (load_sample c.sample_index) c.data_override))
    where
      name_of : Answer → String
      name_of refused = ""
      name_of (accepted r) = r
      name_of raised = ""

      choice-accepted :
          (sample : Option (Dict Json)) (d : PromptChoice) (u : PhaseIssuer)
          → (send_choice c sample d u s).0 ≡ accepted q
          → c.query_id ≡ q
      choice-accepted sample (chosen d) u e = ap name_of e
      choice-accepted sample (unavailable r) u e = ap name_of e
      choice-accepted sample both_token_fields u e = absurd (cc)

      data-accepted :
          (o : Option (Option (Dict Json))) → (send_data c o p s).0 ≡ accepted q → c.query_id ≡ q
      data-accepted none e = absurd (cc)
      data-accepted (some sample) e =
          choice-accepted sample (choose_prompt sample) (registered c p) e

  -- the identifiers of the stamps that were used
  abbrev Used : Desk → String → Type 0
  Used d q = (i : ℕ) × (i < d.used) × ((stamps i).query_id ≡ q)

  identifier-used : (r : Answer × Desk) → (identifier r).1.used ≡ r.1.used
  identifier-used (refused, d) = refl
  identifier-used (accepted q, d) = refl
  identifier-used (raised, d) = refl

  -- a call uses a new stamp or none
  used_more :
      (d e : Desk) (q : String) → (e.used ≡ d.used) ⊎ (e.used ≡ d.used + 1) → Used d q → Used e q
  used_more d e q (inl same) (i, lt, is) = (i, omega (arith, lt, same), is)
  used_more d e q (inr more) (i, lt, is) = (i, omega (arith, lt, more), is)

  -- Stamps whose identifiers differ, as those of `uuid4` do, make the session's issuer give fresh ones.
  pub session-GivesFresh :
      ((i j : ℕ) → (stamps i).query_id ≡ (stamps j).query_id → i ≡ j)
      → GivesFresh (session_issuer load_sample stamps)
  unfolding session_issuer
  session-GivesFresh distinct = record {
    Taken = Used;
    fresh = λ t c o d q e k. fresh_by t c o d q d.session.issuer e k;
    marked = λ t c o d q e. marked_by t c o d q d.session.issuer e;
    kept_issue = λ t c o d q k. kept_by t c o d q d.session.issuer k;
    kept_skip = λ t c d q k. skip_kept t c d q d.session.issuer k;
    kept_stop = λ d q k. stop_kept d q d.session.issuer k;
    kept_time_out = λ r d q k. time_out_kept r d q d.session.issuer k;
    kept_report = λ r i e d q k.
        used_more d ((session_issuer load_sample stamps).report r i e d) q (inr refl) k;
  }
    where
      fresh_by :
          (t : ConversationTurn) (c : String) (o : Option (Dict Json)) (d : Desk) (q : String)
          (p : Option PhaseIssuer)
          → (issue_by load_sample stamps t c o p d).0 ≡ accepted q
          → ¬ Used d q
      fresh_by t c o d q none e k = absurd (cc)
      fresh_by t c o d q (some p) e (i, lt, is) =
          let named = issue-accepted (call_of (stamps d.used) t c o) p d.session q e in
          absurd (omega (arith, lt, distinct i d.used (is ∙ sym named)))

      marked_by :
          (t : ConversationTurn) (c : String) (o : Option (Dict Json)) (d : Desk) (q : String)
          (p : Option PhaseIssuer)
          → (issue_by load_sample stamps t c o p d).0 ≡ accepted q
          → Used (issue_by load_sample stamps t c o p d).1 q
      marked_by t c o d q none e = absurd (cc)
      marked_by t c o d q (some p) e =
          (d.used, omega arith, issue-accepted (call_of (stamps d.used) t c o) p d.session q e)

      kept_by :
          (t : ConversationTurn) (c : String) (o : Option (Dict Json)) (d : Desk) (q : String)
          (p : Option PhaseIssuer)
          → Used d q
          → Used (issue_by load_sample stamps t c o p d).1 q
      kept_by t c o d q none k = k
      kept_by t c o d q (some p) k =
          used_more d (issue_by load_sample stamps t c o (some p) d).1 q (inr refl) k

      skip_kept :
          (t : ConversationTurn) (c : String) (d : Desk) (q : String) (p : Option PhaseIssuer)
          → Used d q
          → Used (skip_by stamps t c p d).1 q
      skip_kept t c d q none k = k
      skip_kept t c d q (some p) k =
          used_more d (skip_by stamps t c (some p) d).1 q
            (inr (
              identifier-used (
                answered d.used (register_skipped (call_of (stamps d.used) t c none) p d.session))))
            k

      stop_kept :
          (d : Desk) (q : String) (p : Option PhaseIssuer) → Used d q → Used (stop_by stamps p d) q
      stop_kept d q none k = k
      stop_kept d q (some p) k = used_more d (stop_by stamps (some p) d) q (inr refl) k

      time_out_kept :
          (r : String) (d : Desk) (q : String) (p : Option PhaseIssuer)
          → Used d q
          → Used (time_out_by r p d).1 q
      time_out_kept r d q none k = k
      time_out_kept r d q (some p) k = used_more d (time_out_by r (some p) d).1 q (inl refl) k
