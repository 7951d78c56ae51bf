-- ===== src/Client/Pool/Bounds.antt =====
-- endpoint_client/http.py: the limits of the pool, and that looking for a connection keeps them.
use mathlib.Core.Path.{subst}
use endpoints.Base.{
  ℕ, ◌+◌, ◌-◌, ◌≤◌, ◌<◌, true, ◌&&◌, not, ◌≡◌, refl, sym, ◌∙◌, Option, none, some, List, [], ◌∷◌,
  ltb, length, arith, Bool-cases, inl, inr, if_true, if_false,
}
use endpoints.Client.Pool.{
  Pool, is_alive, is_stale, close_connection, get_idle, try_get_idle, below, can_create, acquired,
  acquire, resume, entered, enter_limiter,
}
use endpoints.Client.Pool.Stack.{Tracked, length-remove}
use endpoints.Client.Pool.Objects.{close_idle, use_idle}

abbrev pub Bounded : Option ℕ → ℕ → Type 0
Bounded none n = Unit {0}
Bounded (some m) n = n ≤ m

pub Bounded-le : (o : Option ℕ) (n k : ℕ) → n ≤ k → Bounded o k → Bounded o n
Bounded-le none n k le h = tt
Bounded-le (some m) n k le h = omega arith

pub below-Bounded : (o : Option ℕ) (n : ℕ) → below o n ≡ true → Bounded o (n + 1)
below-Bounded none n e = tt
below-Bounded (some m) n e = ground (arith, e)

-- The two bounds that a pool is made with.
pub record Limits : Type 0 where
  pub max : Option ℕ
  pub permits : ℕ

pub record IsSound (limits : Limits) (p : Pool) : Type 0 where
  pub objects : Tracked p.conn p.created p.idle_stack p.all
  -- the tracked connections and those being made are within the limit
  pub bounded : Bounded p.max_connections (length p.all + p.creating)
  pub making : p.creating ≡ p.queued + p.connecting
  -- no more handshakes than permits
  pub paced : p.connecting + p.limiter ≡ limits.permits
  pub limit : p.max_connections ≡ limits.max

-- What looking for an idle connection leaves as it was.
pub record Looks (p q : Pool) : Type 0 where
  pub objects : Tracked q.conn q.created q.idle_stack q.all
  pub fewer : length q.all ≤ length p.all
  pub limit : q.max_connections ≡ p.max_connections
  pub slots : q.creating ≡ p.creating
  pub waiting : q.queued ≡ p.queued
  pub making : q.connecting ≡ p.connecting
  pub permits : q.limiter ≡ p.limiter

pub get_idle-Looks :
    (now : ℕ) (stack : List ℕ) (p : Pool)
    → Tracked p.conn p.created stack p.all
    → Looks p (get_idle now stack p).1
unfolding get_idle
get_idle-Looks now [] p h = record {
  objects = h;
  fewer = omega arith;
  limit = refl;
  slots = refl;
  waiting = refl;
  making = refl;
  permits = refl;
}
get_idle-Looks now (i ∷ rest) p h =
    let closed : Looks p (get_idle now rest (close_connection i p)).1 =
      let r =
        get_idle-Looks now rest (close_connection i p)
          (close_idle p.created p.all p.conn i rest h) in
      record {
        objects = r.objects;
        fewer = omega (arith, r.fewer, length-remove i p.all h.idle.0);
        limit = r.limit;
        slots = r.slots;
        waiting = r.waiting;
        making = r.making;
        permits = r.permits;
      } in
    let P = λ (r : Option ℕ × Pool). Looks p r.1 in
    elim (Bool-cases (ltb p.max_idle_time (now - (p.conn i).last_used))) [
      | inl old ↦ subst P (sym (if_true _ _ _ old)) closed
      | inr fresh ↦
          subst P (sym (if_false _ _ _ fresh))
            (elim (Bool-cases (is_alive (p.conn i) && not (is_stale now (p.conn i)))) [
              | inl usable ↦ subst P (sym (if_true _ _ _ usable)) (record {
                objects = use_idle p.created p.all p.conn i _ rest refl refl h;
                fewer = omega arith;
                limit = refl;
                slots = refl;
                waiting = refl;
                making = refl;
                permits = refl;
              })
              | inr dead ↦ subst P (sym (if_false _ _ _ dead)) closed
            ])
    ]

try_get_idle-Looks :
    (limits : Limits) (now : ℕ) (p : Pool) → IsSound limits p → Looks p (try_get_idle now p).1
try_get_idle-Looks limits now p h = get_idle-Looks now p.idle_stack p h.objects

still_Bounded :
    (limits : Limits) (p q : Pool)
    → IsSound limits p
    → Looks p q
    → Bounded q.max_connections (length q.all + q.creating)
still_Bounded limits p q h l =
    subst (λ o. Bounded o (length q.all + q.creating)) (sym l.limit)
      (Bounded-le p.max_connections (length q.all + q.creating) (length p.all + p.creating)
        (omega (arith, l.fewer, l.slots)) h.bounded)

looked-IsSound : (limits : Limits) (p q : Pool) → IsSound limits p → Looks p q → IsSound limits q
looked-IsSound limits p q h l = record {
  objects = l.objects;
  bounded = still_Bounded limits p q h l;
  making = omega (arith, h.making, l.slots, l.waiting, l.making);
  paced = omega (arith, h.paced, l.making, l.permits);
  limit = l.limit ∙ h.limit;
}

acquired-IsSound :
    (limits : Limits) (r : Option ℕ × Pool) → IsSound limits r.1 → IsSound limits (acquired r).1
acquired-IsSound limits (some i, q) h = h
acquired-IsSound limits (none, q) h = elim (Bool-cases (can_create q)) [
  | inl room ↦ rw room (record {
    objects = h.objects;
    bounded =
        Bounded-le q.max_connections (length q.all + (q.creating + 1))
          (length q.all + q.creating + 1) (omega arith)
          (below-Bounded q.max_connections (length q.all + q.creating) room);
    making = omega (arith, h.making);
    paced = h.paced;
    limit = h.limit;
  })
  | inr full ↦ rw full (record {
    objects = h.objects;
    bounded = h.bounded;
    making = h.making;
    paced = h.paced;
    limit = h.limit;
  })
]

pub acquire-IsSound :
    (limits : Limits) (now : ℕ) (p : Pool) → IsSound limits p → IsSound limits (acquire now p).1
unfolding acquire
acquire-IsSound limits now p h =
    acquired-IsSound limits (try_get_idle now p)
      (looked-IsSound limits p (try_get_idle now p).1 h (try_get_idle-Looks limits now p h))

pub resume-IsSound :
    (limits : Limits) (now : ℕ) (p : Pool) → IsSound limits p → IsSound limits (resume now p).1
unfolding resume
resume-IsSound limits now p h =
    acquire-IsSound limits now (record p { woken = p.woken - 1 })
      (record {
        objects = h.objects;
        bounded = h.bounded;
        making = h.making;
        paced = h.paced;
        limit = h.limit;
      })

entered-IsSound :
    (limits : Limits) (r : Option ℕ × Pool)
    → 0 < r.1.queued
    → 0 < r.1.limiter
    → IsSound limits r.1
    → IsSound limits (entered r)
entered-IsSound limits (some i, q) queued free h = record {
  objects = h.objects;
  bounded =
      Bounded-le q.max_connections (length q.all + (q.creating - 1)) (length q.all + q.creating)
        (omega arith) h.bounded;
  making = omega (arith, h.making);
  paced = h.paced;
  limit = h.limit;
}
entered-IsSound limits (none, q) queued free h = record {
  objects = h.objects;
  bounded = h.bounded;
  making = omega (arith, h.making);
  paced = omega (arith, h.paced);
  limit = h.limit;
}

pub enter-IsSound :
    (limits : Limits) (now : ℕ) (p : Pool)
    → (ltb 0 p.queued && ltb 0 p.limiter) ≡ true
    → IsSound limits p
    → IsSound limits (enter_limiter now p)
unfolding enter_limiter
enter-IsSound limits now p ready h =
    let l = try_get_idle-Looks limits now p h in
    entered-IsSound limits (try_get_idle now p) (ground (arith, ready, l.waiting))
      (ground (arith, ready, l.permits)) (looked-IsSound limits p (try_get_idle now p).1 h l)
