-- ===== src/LoadGen/Concurrency/Permits/Turns.antt =====
-- load_generator/strategy.py: the permits over any rounds and results.
use mathlib.Core.Path.{subst}
use endpoints.Base.{
  ℕ, ◌+◌, ◌≤◌, ◌<◌, false, ◌||◌, ◌≡◌, refl, sym, ◌∙◌, ap, Option, none, some, List, [], ◌∷◌, ◌==◌,
  if_true, if_false, arith, Bool-cases, inl, inr,
}
use endpoints.Base.Dict.{Dict}
use endpoints.Core.Output.{Json}
use endpoints.LoadGen.State.{PhaseIssuer, Session}
use endpoints.LoadGen.Issuer.{Call, Answer, accepted, refused, raised, issue}
use endpoints.LoadGen.Responses.{QueryResult, handle_query_result, inflight_of}
use endpoints.LoadGen.Concurrency.{
  Concurrency, new_concurrency, after_issue, next_issue, receive, issue_at, Turn, next, got,
  take_turn, take_turns,
}
use endpoints.LoadGen.Concurrency.Permits.{Gains, issue-Gains, both_false, routed}

-- The permits and the requests in flight add up to the target, until an exception ends the strategy.
pub record IsGated (target : ℕ) (x : Concurrency) : Type 0 where
  pub at_most : x.permits + inflight_of x.session.issuer ≤ target
  pub exact : x.finished ≡ false → x.permits + inflight_of x.session.issuer ≡ target

issued-IsGated :
    (target permits n : ℕ) (a : Answer) (t : Session)
    → 0 < permits
    → permits + n ≡ target
    → Gains n (a, t)
    → IsGated target (after_issue permits a t)
issued-IsGated target permits n refused t p e g = record {
  at_most = omega arith;
  exact = λ f. omega arith;
}
issued-IsGated target permits n (accepted id) t p e g = record {
  at_most = omega arith;
  exact = λ f. omega arith;
}
issued-IsGated target permits n raised t p e g = record {
  at_most = omega arith;
  exact = λ f. absurd (cc);
}

at_issuer-IsGated :
    (target : ℕ) (load_sample : ℕ → Option (Dict Json)) (c : Call) (o : Option PhaseIssuer)
    (x : Concurrency)
    → x.session.issuer ≡ o
    → x.finished ≡ false
    → 0 < x.permits
    → IsGated target x
    → IsGated target (issue_at load_sample c o x)
at_issuer-IsGated target load_sample c none x e f p h = h
at_issuer-IsGated target load_sample c (some q) x e f p h =
    issued-IsGated target x.permits q.inflight (issue load_sample c q x.session).0
      (issue load_sample c q x.session).1 p
      (ap (λ o. x.permits + inflight_of o) (sym e) ∙ h.exact f)
      (issue-Gains load_sample c q x.session e)

next_issue-IsGated :
    (target : ℕ) (load_sample : ℕ → Option (Dict Json)) (c : Call) (x : Concurrency)
    → IsGated target x
    → IsGated target (next_issue load_sample c x)
unfolding next_issue
next_issue-IsGated target load_sample c x h = elim (Bool-cases (x.finished || x.permits == 0)) [
  | inl blocked ↦ subst (IsGated target) (sym (if_true _ _ _ blocked)) h
  | inr free ↦
      let (f, p) = both_false x.finished x.permits free in
      subst (IsGated target) (sym (if_false _ _ _ free))
        (at_issuer-IsGated target load_sample c x.session.issuer x refl f p h)
]

receive-IsGated :
    (target : ℕ) (r : QueryResult) (now : ℕ) (x : Concurrency)
    → 0 < inflight_of x.session.issuer
    → IsGated target x
    → IsGated target (receive r now x)
unfolding receive handle_query_result
receive-IsGated target r now x busy h =
    let (n, less, told) = routed r now x.session.issuer x.session refl busy in
    record { at_most = omega (arith, h.at_most); exact = λ f. omega (arith, h.exact f) }

-- Whether a result comes for a request in flight.
abbrev pub IsAnswer : Turn → Concurrency → Type 0
IsAnswer (next c) x = Unit {0}
IsAnswer (got r now) x = 0 < inflight_of x.session.issuer

abbrev pub AreAnswers : (ℕ → Option (Dict Json)) → List Turn → Concurrency → Type 0
AreAnswers load_sample [] x = Unit {0}
AreAnswers load_sample (t ∷ ts) x =
    IsAnswer t x × AreAnswers load_sample ts (take_turn load_sample t x)

turn-IsGated :
    (target : ℕ) (load_sample : ℕ → Option (Dict Json)) (t : Turn) (x : Concurrency)
    → IsAnswer t x
    → IsGated target x
    → IsGated target (take_turn load_sample t x)
unfolding take_turn
turn-IsGated target load_sample (next c) x a h = next_issue-IsGated target load_sample c x h
turn-IsGated target load_sample (got r now) x a h = receive-IsGated target r now x a h

turns-IsGated :
    (target : ℕ) (load_sample : ℕ → Option (Dict Json)) (ts : List Turn) (x : Concurrency)
    → AreAnswers load_sample ts x
    → IsGated target x
    → IsGated target (take_turns load_sample ts x)
unfolding take_turns
turns-IsGated target load_sample [] x a h = h
turns-IsGated target load_sample (t ∷ ts) x a h =
    turns-IsGated target load_sample ts (take_turn load_sample t x) a.1
      (turn-IsGated target load_sample t x a.0 h)

new_concurrency-eq :
    (target : ℕ) (s : Session) (x : Concurrency)
    → new_concurrency target s ≡ some x
    → x ≡ record { session = s; permits = target; finished = false }
unfolding new_concurrency
new_concurrency-eq target s x e = ground arith

-- A strategy that was accepted with a target concurrency, on a session with no request in flight: after any rounds of its loop and any results, each of which comes while a request is in flight, the permits and the requests in flight together are at most the target, so that no more requests are in flight than the target, and they are exactly the target until the strategy ends.
pub take_turns-IsGated :
    (target : ℕ) (load_sample : ℕ → Option (Dict Json)) (ts : List Turn) (s : Session)
    (x : Concurrency)
    → new_concurrency target s ≡ some x
    → inflight_of s.issuer ≡ 0
    → AreAnswers load_sample ts x
    → IsGated target (take_turns load_sample ts x)
take_turns-IsGated target load_sample ts s x made idle answers =
    turns-IsGated target load_sample ts x answers (
      subst (IsGated target) (sym (new_concurrency-eq target s x made))
        (record { at_most = omega arith; exact = λ f. omega arith }))
