-- ===== src/LoadGen/Guard/Steps.antt =====
-- load_generator/session.py: the liveness timer and the steps of a phase keep the invariant of `Guard`.
use mathlib.Core.Path.{subst}
use endpoints.Base.{
  ℕ, zero, suc, ◌-◌, Bool, true, false, ◌&&◌, ◌||◌, ◌≡◌, refl, sym, ◌∙◌, ap, Option, none, some,
  List, [], ◌∷◌, arith, ltb, if_true, if_false, is_some, Bool-cases, inl, inr,
}
use endpoints.Base.Dict.{Dict}
use endpoints.Core.Output.{Json}
use endpoints.LoadGen.State.{
  PhaseIssuer, Session, publish, publish_session_event, stop, stop_current_phase,
}
use endpoints.LoadGen.Responses.{
  transport_closed, receiver_raised, fire_timer, fire_guarded, expire, inflight_of, started_of,
  last_progress,
}
use endpoints.LoadGen.Run.{
  Step, issue_sample, skip_sample, respond, close_transport, fail_receiver, stop_session,
  stop_phase, run_timer, run_step, run_steps, at_issuer, PhaseScript, begin_phase, start_tracking,
  announce, install, reset_liveness, is_performance,
}
use endpoints.LoadGen.Guard.{IsSafe, begun, stopped_now, armed_again, disarmed}
use endpoints.LoadGen.Guard.Methods.{issue-Safe, skip-Safe, response-Safe}

expire-Safe :
    (timeout now begin : ℕ) (s : Session)
    → s.idle_timeout_ns ≡ some timeout
    → ltb 0 (inflight_of s.issuer) ≡ true
    → IsSafe s
    → IsSafe (expire timeout now begin s)
unfolding expire stop
expire-Safe timeout now begin s on busy h =
    elim (Bool-cases (ltb (now - last_progress s.last_progress_ns begin) timeout)) [
      | inl early ↦
          simp early (
            armed_again timeout (timeout - (now - last_progress s.last_progress_ns begin)) h on
              busy)
      | inr late ↦ simp late (stopped_now none h)
    ]

guarded-Safe :
    (now : ℕ) (t : Option ℕ) (o : Option PhaseIssuer) (n : ℕ) (b : Option ℕ) (s : Session)
    → s.idle_timeout_ns ≡ t
    → s.issuer ≡ o
    → inflight_of s.issuer ≡ n
    → started_of s.issuer ≡ b
    → IsSafe s
    → IsSafe (fire_guarded now t o n b s)
unfolding fire_guarded
guarded-Safe now (some t) (some p) (suc n) (some b) s et eo en eb h =
    expire-Safe t now b s et (rw en (ground arith)) h
guarded-Safe now (some t) (some p) (suc n) none s et eo en eb h =
    let busy : ltb 0 (suc n) ≡ true = ground arith in
    let k : false ≡ true = sym (ap is_some eb) ∙ h.stamped (ap is_some et) ∙ ap (ltb 0) en ∙ busy in
    absurd (cc)
guarded-Safe now (some t) (some p) zero b s et eo en eb h = disarmed h (λ g. rw (et, en) refl)
guarded-Safe now (some t) none n b s et eo en eb h = disarmed h (λ g. rw (et, eo) refl)
guarded-Safe now none o n b s et eo en eb h = disarmed h (λ g. rw et refl)

finished_lem : (a b : Bool) → (a || b) ≡ true → (b || a) ≡ false → ⊥
finished_lem a b h g = ground arith

timer-Safe : (now : ℕ) (s : Session) → IsSafe s → IsSafe (fire_timer now s)
unfolding fire_timer
timer-Safe now s h = elim (Bool-cases (s.done || s.stop_requested)) [
  | inl finished ↦
      subst IsSafe (sym (if_true _ _ _ finished))
        (disarmed h (λ g. absurd (finished_lem s.done s.stop_requested finished g)))
  | inr active ↦ subst IsSafe (sym (if_false _ _ _ active)) (
      guarded-Safe now s.idle_timeout_ns s.issuer (inflight_of s.issuer) (started_of s.issuer) s
        refl refl refl refl h)
]

stop_phase-Safe : (s : Session) → IsSafe s → IsSafe (stop_current_phase s)
unfolding stop_current_phase
stop_phase-Safe s h = elim (Bool-cases s.strategy_running) [
  | inl active ↦ simp active h
  | inr ended ↦ simp ended h
]

at_issuer-Safe :
    (f : PhaseIssuer → Session → Session) (o : Option PhaseIssuer) (s : Session)
    → s.issuer ≡ o
    → ((p : PhaseIssuer) → s.issuer ≡ some p → IsSafe (f p s))
    → IsSafe s
    → IsSafe (at_issuer f o s)
at_issuer-Safe f none s e g h = h
at_issuer-Safe f (some p) s e g h = g p e

installed-Safe : (x : PhaseScript) (s : Session) → IsSafe s → IsSafe (install x (reset_liveness s))
unfolding install reset_liveness
installed-Safe x s h = elim (Bool-cases (is_some s.idle_timeout_ns)) [
  | inl guarded ↦ simp guarded (begun x.check _ s.idle_timeout_ns none (λ going. refl))
  | inr free ↦ simp free (
      begun x.check _ s.idle_timeout_ns s.timer
        (λ going. h.armed going ∙ ap (λ b. b && ltb 0 (inflight_of s.issuer)) free))
]

start_tracking-Safe : (x : PhaseScript) (s : Session) → IsSafe s → IsSafe (start_tracking x s)
unfolding start_tracking publish_session_event publish
start_tracking-Safe x s h = elim (Bool-cases (is_performance x.phase_type)) [
  | inl tracked ↦ simp tracked h
  | inr untracked ↦ simp untracked h
]

begin-Safe : (x : PhaseScript) (s : Session) → IsSafe s → IsSafe (begin_phase x s)
unfolding begin_phase announce publish_session_event publish
begin-Safe x s h =
    start_tracking-Safe x (announce x (install x (reset_liveness s))) (installed-Safe x s h)

module _ (load_sample : ℕ → Option (Dict Json)) where
  step-Safe : (x : Step) (s : Session) → IsSafe s → IsSafe (run_step load_sample x s)
  unfolding run_step receiver_raised stop transport_closed
  step-Safe (issue_sample c) s h =
      at_issuer-Safe _ s.issuer s refl (λ p e. issue-Safe load_sample c p s e h) h
  step-Safe (skip_sample c) s h = at_issuer-Safe _ s.issuer s refl (λ p e. skip-Safe c p s e h) h
  step-Safe (respond r now) s h = response-Safe r now s h
  step-Safe close_transport s h = stopped_now s.timer h
  step-Safe fail_receiver s h = stopped_now none h
  step-Safe stop_session s h = stopped_now none h
  step-Safe stop_phase s h = stop_phase-Safe s h
  step-Safe (run_timer now) s h = elim (Bool-cases (is_some s.timer)) [
    | inl armed ↦ subst IsSafe (sym (if_true _ _ _ armed)) (timer-Safe now s h)
    | inr absent ↦ subst IsSafe (sym (if_false _ _ _ absent)) h
  ]

  steps-Safe : (xs : List Step) (s : Session) → IsSafe s → IsSafe (run_steps load_sample xs s)
  unfolding run_steps
  steps-Safe [] s h = h
  steps-Safe (x ∷ xs) s h = steps-Safe xs (run_step load_sample x s) (step-Safe x s h)

  -- After any steps of a phase that a safe session begins: where the load pattern counts samples, no more samples were issued than configured; no more requests are in flight than samples were issued; and unless the session was stopped or is done, the liveness timer is armed exactly while a limit is configured and requests are in flight, whose start is then known.
  pub phase_steps-IsSafe :
      (x : PhaseScript) (xs : List Step) (s : Session)
      → IsSafe s
      → IsSafe (run_steps load_sample xs (begin_phase x s))
  phase_steps-IsSafe x xs s h = steps-Safe xs (begin_phase x s) (begin-Safe x s h)
