-- ===== src/Client/Pool/Steps.antt =====
-- endpoint_client/http.py: the limits of the pool, after any steps.
use mathlib.Core.Path.{subst}
use endpoints.Base.{
  ℕ, ◌+◌, ◌-◌, ◌≤◌, Bool, true, false, ◌&&◌, ◌≡◌, refl, Option, none, some, List, [], ◌∷◌,
  if◌then◌else◌, ltb, arith, ltb→lt,
}
use endpoints.Client.Pool.{
  Pool, new_pool, idle_count, total_count, in_use_count, Step, start, wake, enter, connect, refuse,
  give_back, lose, ask_close, receive, cancel_waiting, cancel_woken, cancel_queued, shut, run_step,
  run_steps,
}
use endpoints.Client.Pool.Bounds.{
  Bounded, Limits, IsSound, acquire-IsSound, resume-IsSound, enter-IsSound,
}
use endpoints.Client.Pool.Changes.{
  release-IsSound, changed-IsSound, connected-IsSound, failed-IsSound, fewer_slots, close-IsSound,
}

guarded :
    (limits : Limits) (b : Bool) (p q : Pool)
    → (b ≡ true → IsSound limits q)
    → IsSound limits p
    → IsSound limits (if b then q else p)
guarded limits true p q h k = h refl
guarded limits false p q h k = k

step-IsSound :
    (limits : Limits) (x : Step) (p : Pool) → IsSound limits p → IsSound limits (run_step x p)
unfolding run_step
step-IsSound limits (start now) p h = acquire-IsSound limits now p h
step-IsSound limits (wake now) p h =
    guarded limits (ltb 0 p.woken) p _ (λ e. resume-IsSound limits now p h) h
step-IsSound limits (enter now) p h =
    guarded limits (ltb 0 p.queued && ltb 0 p.limiter) p _ (λ e. enter-IsSound limits now p e h) h
step-IsSound limits (connect now) p h =
    guarded limits (ltb 0 p.connecting) p _
      (λ e. connected-IsSound limits now p (ltb→lt 0 p.connecting e) h) h
step-IsSound limits refuse p h =
    guarded limits (ltb 0 p.connecting) p _
      (λ e. failed-IsSound limits p (ltb→lt 0 p.connecting e) h) h
step-IsSound limits (give_back i now) p h =
    guarded limits (ltb i p.created) p _
      (λ e. release-IsSound limits i now p (ltb→lt i p.created e) h) h
step-IsSound limits (lose i) p h = changed-IsSound limits i _ p refl (λ e. refl) h
step-IsSound limits (ask_close i) p h = changed-IsSound limits i _ p refl (λ e. e) h
step-IsSound limits (receive i b) p h = changed-IsSound limits i _ p refl (λ e. e) h
step-IsSound limits (cancel_waiting w) p h = record {
  objects = h.objects;
  bounded = h.bounded;
  making = h.making;
  paced = h.paced;
  limit = h.limit;
}
step-IsSound limits cancel_woken p h = record {
  objects = h.objects;
  bounded = h.bounded;
  making = h.making;
  paced = h.paced;
  limit = h.limit;
}
step-IsSound limits cancel_queued p h =
    guarded limits (ltb 0 p.queued) p _
      (λ e. record {
        objects = h.objects;
        bounded = fewer_slots p (p.creating - 1) (omega arith) h.bounded;
        making = ground (arith, e, h.making);
        paced = h.paced;
        limit = h.limit;
      })
      h
step-IsSound limits shut p h = close-IsSound limits p h

pub new_pool-IsSound :
    (limits : Limits) (idle_time : ℕ)
    → IsSound limits (new_pool limits.max idle_time limits.permits)
new_pool-IsSound limits idle_time = record {
  objects = record {
    distinct = tt;
    once = tt;
    idle = tt;
    closed = λ i lt gone. absurd (omega arith);
    known = tt;
    counted = omega arith;
  };
  bounded = Bounded-zero limits.max;
  making = omega arith;
  paced = omega arith;
  limit = refl;
}
  where
    Bounded-zero : (o : Option ℕ) → Bounded o (0 + 0)
    Bounded-zero none = tt
    Bounded-zero (some m) = omega arith

pub steps-IsSound :
    (limits : Limits) (xs : List Step) (p : Pool)
    → IsSound limits p
    → IsSound limits (run_steps xs p)
unfolding run_steps
steps-IsSound limits [] p h = h
steps-IsSound limits (x ∷ xs) p h =
    steps-IsSound limits xs (run_step x p) (step-IsSound limits x p h)

-- After any steps of a new pool: the connections that it tracks and those that it is making are within
-- `max_connections`, where that is set; no more handshakes run at once than the limiter has permits;
-- and of the tracked connections each is idle or in use, so that the counts add up.
pub run_steps-limits :
    (limits : Limits) (idle_time : ℕ) (xs : List Step)
    → let p = run_steps xs (new_pool limits.max idle_time limits.permits) in
      Bounded limits.max (total_count p + p.creating)
      × (p.connecting ≤ limits.permits)
      × (idle_count p + in_use_count p ≡ total_count p)
run_steps-limits limits idle_time xs =
    let p = run_steps xs (new_pool limits.max idle_time limits.permits) in
    let h = steps-IsSound limits xs _ (new_pool-IsSound limits idle_time) in
    (
      subst (λ o. Bounded o (total_count p + p.creating)) h.limit h.bounded,
      omega (arith, h.paced),
      h.objects.counted,
    )
