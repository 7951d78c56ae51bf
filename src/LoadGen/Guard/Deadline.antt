-- ===== src/LoadGen/Guard/Deadline.antt =====
-- load_generator/session.py: when the liveness timer fails a run, and when it is armed again.
use mathlib.Core.Path.{subst}
use endpoints.Base.{
  ℕ, zero, suc, ◌+◌, ◌-◌, ◌≤◌, ◌<◌, true, false, ◌||◌, ◌≡◌, refl, sym, ◌∙◌, ap, Option, none, some,
  ◌⊎◌, inl, inr, arith, ltb, if_true, if_false, Bool-cases, ltb→lt, ltb→le,
}
use endpoints.LoadGen.State.{PhaseIssuer, Session, idle_timeout, stop}
use endpoints.LoadGen.Responses.{
  fire_timer, fire_guarded, expire, first_error, last_progress, inflight_of, started_of,
}

-- A session has requests in flight, the first of them since `begin`, and watches them for `timeout`.
pub record IsWatched (s : Session) (timeout begin : ℕ) : Type 0 where
  pub going : (s.done || s.stop_requested) ≡ false
  pub limit : s.idle_timeout_ns ≡ some timeout
  pub busy : 0 < inflight_of s.issuer
  pub since : started_of s.issuer ≡ some begin

-- The session failed: the timeout has passed since the start and since every response.
pub record IsStalled (s t : Session) (now : ℕ) : Type 0 where
  pub timeout : ℕ
  pub begin : ℕ
  pub watched : IsWatched s timeout begin
  pub long_ago : begin + timeout ≤ now
  pub silent : (at : ℕ) → s.last_progress_ns ≡ some at → at + timeout ≤ now
  pub stopped : t.stop_requested ≡ true
  pub fatal : t.fatal_error ≡ first_error s.fatal_error idle_timeout
  pub retired : t.timer ≡ none

-- The timeout has not passed since the latest of the start and the last response; the timer runs until
-- it has.
pub record IsWaiting (s t : Session) (now : ℕ) : Type 0 where
  pub timeout : ℕ
  pub begin : ℕ
  pub watched : IsWatched s timeout begin
  pub delay : ℕ
  pub armed : t.timer ≡ some delay
  pub later : 0 < delay
  pub latest : ℕ
  pub due : now + delay ≡ latest + timeout
  pub is_progress : (latest ≡ begin) ⊎ (s.last_progress_ns ≡ some latest)
  pub after_begin : begin ≤ latest
  pub after_responses : (at : ℕ) → s.last_progress_ns ≡ some at → at ≤ latest
  pub going : t.stop_requested ≡ s.stop_requested
  pub no_error : t.fatal_error ≡ s.fatal_error

-- Nothing is watched; the timer is off.
pub record IsRetired (s t : Session) : Type 0 where
  pub unwatched : (timeout begin : ℕ) → ¬ IsWatched s timeout begin
  pub off : t.timer ≡ none
  pub going : t.stop_requested ≡ s.stop_requested
  pub no_error : t.fatal_error ≡ s.fatal_error

abbrev Outcome : ℕ → Session → Session → Type 0
Outcome now s t = IsRetired s t ⊎ (IsWaiting s t now ⊎ IsStalled s t now)

value_or : ℕ → Option ℕ → ℕ
value_or a none = a
value_or a (some b) = b

some_eq : {a b : ℕ} → some a ≡ some b → a ≡ b
unfolding value_or
some_eq {a} e = ap (value_or a) e

latest_of :
    (o : Option ℕ) (begin : ℕ)
    → ((last_progress o begin ≡ begin) ⊎ (o ≡ some (last_progress o begin)))
      × (begin ≤ last_progress o begin)
      × ((at : ℕ) → o ≡ some at → at ≤ last_progress o begin)
latest_of none begin = (inl refl, omega arith, λ at e. absurd (cc))
latest_of (some t) begin = elim (Bool-cases (ltb t begin)) [
  | inl early ↦
      let lt = ltb→lt t begin early in
      let is : last_progress (some t) begin ≡ begin = if_true _ _ _ early in
      (inl is, omega (arith, is), λ at e. let same : t ≡ at = some_eq e in omega (arith, is, same))
  | inr late ↦
      let le = ltb→le t begin late in
      let is : last_progress (some t) begin ≡ t = if_false _ _ _ late in
      (
        inr (ap some (sym is)),
        omega (arith, is),
        λ at e. let same : t ≡ at = some_eq e in omega (arith, is, same),
      )
]

expire-Outcome :
    (timeout now begin : ℕ) (s : Session)
    → IsWatched s timeout begin
    → last_progress s.last_progress_ns begin ≤ now
    → Outcome now s (expire timeout now begin s)
unfolding expire stop
expire-Outcome timeout now begin s watched le =
    let last = last_progress s.last_progress_ns begin in
    let (which, start, after) = latest_of s.last_progress_ns begin in
    elim (Bool-cases (ltb (now - last) timeout)) [
      | inl early ↦
          let gap = ltb→lt (now - last) timeout early in
          inr (
            inl (
              simp early (record {
                timeout = timeout;
                begin = begin;
                watched = watched;
                delay = timeout - (now - last);
                armed = refl;
                later = omega arith;
                latest = last;
                due = omega arith;
                is_progress = which;
                after_begin = start;
                after_responses = after;
                going = refl;
                no_error = refl;
              })))
      | inr late ↦
          let gap = ltb→le (now - last) timeout late in
          inr (
            inr (
              simp late (record {
                timeout = timeout;
                begin = begin;
                watched = watched;
                long_ago = omega arith;
                silent = λ at e. omega (arith, after at e);
                stopped = refl;
                fatal = refl;
                retired = refl;
              })))
    ]

module _ (now : ℕ) (s : Session)
    (begun : (begin : ℕ) → started_of s.issuer ≡ some begin → begin ≤ now)
    (responded : (at : ℕ) → s.last_progress_ns ≡ some at → at ≤ now) where
  progress_le :
      (begin : ℕ) → started_of s.issuer ≡ some begin → last_progress s.last_progress_ns begin ≤ now
  progress_le begin e = elim (latest_of s.last_progress_ns begin).0 [
    | inl same ↦ omega (arith, same, begun begin e)
    | inr stamped ↦ responded _ stamped
  ]

  retired :
      ((timeout begin : ℕ) → ¬ IsWatched s timeout begin)
      → Outcome now s (record s { timer = none })
  retired h = inl (record { unwatched = h; off = refl; going = refl; no_error = refl })

  guarded :
      (o : Option ℕ) (p : Option PhaseIssuer) (k : ℕ) (b : Option ℕ)
      → (s.done || s.stop_requested) ≡ false
      → s.idle_timeout_ns ≡ o
      → s.issuer ≡ p
      → inflight_of s.issuer ≡ k
      → started_of s.issuer ≡ b
      → Outcome now s (fire_guarded now o p k b s)
  unfolding fire_guarded
  guarded none p k b active eo ep ek eb =
      retired (λ timeout begin w. let e = sym eo ∙ w.limit in absurd (cc))
  guarded (some timeout) none k b active eo ep ek eb =
      retired (λ t begin w. let e = ap inflight_of ep in absurd (omega (arith, w.busy, e)))
  guarded (some timeout) (some p) zero b active eo ep ek eb =
      retired (λ t begin w. absurd (omega (arith, w.busy, ek)))
  guarded (some timeout) (some p) (suc n) none active eo ep ek eb =
      retired (λ t begin w. let e = sym eb ∙ w.since in absurd (cc))
  guarded (some timeout) (some p) (suc n) (some begin) active eo ep ek eb =
      expire-Outcome timeout now begin s
        (record { going = active; limit = eo; busy = omega (arith, ek); since = eb })
        (progress_le begin eb)

  -- When the liveness timer fires at a time no earlier than the start of the requests in flight and the last response, one of three things happens. If the session is over, or no request is in flight, or no timeout is set, the timer goes off and nothing is stopped. Else the session fails if the timeout has passed since the start and since the last response, and otherwise only the timer is armed, for the rest of the timeout since the later of the two.
  pub fire_timer-deadline :
      IsRetired s (fire_timer now s)
      ⊎ (IsWaiting s (fire_timer now s) now ⊎ IsStalled s (fire_timer now s) now)
  unfolding fire_timer
  fire_timer-deadline = elim (Bool-cases (s.done || s.stop_requested)) [
    | inl over ↦
        subst (Outcome now s) (sym (if_true _ _ _ over))
          (retired (λ timeout begin w. let e = sym over ∙ w.going in absurd (cc)))
    | inr active ↦ subst (Outcome now s) (sym (if_false _ _ _ active)) (
        guarded s.idle_timeout_ns s.issuer (inflight_of s.issuer) (started_of s.issuer) active refl
          refl refl refl)
  ]
