-- ===== src/Client/Pool/Handout.antt =====
-- endpoint_client/http.py: the connections that the pool hands out.
use mathlib.Core.Path.{subst}
use endpoints.Base.{
  ℕ, ◌-◌, ◌≤◌, true, false, ◌&&◌, not, ◌≡◌, refl, sym, ◌∙◌, ap, Option, none, some, List, [], ◌∷◌,
  ◌==◌, ltb, arith, Bool-cases, inl, inr, ==→eq, eq→==, if_true, if_false, ltb→le,
}
use endpoints.Client.Pool.{
  Connection, Pool, is_alive, is_stale, elem, close_connection, take_idle, get_idle, try_get_idle,
  can_create, Progress, got, creates, waits, acquired, acquire,
}
use endpoints.Client.Pool.Stack.{Tracked}
use endpoints.Client.Pool.Bounds.{Limits, IsSound}
use endpoints.Client.Pool.Objects.{close_idle}

-- A connection that the stack gives: it was idle and usable, and is in use and off the stack after.
record Gives (now i : ℕ) (stack : List ℕ) (p q : Pool) : Type 0 where
  inside : elem i stack ≡ true
  unused : (p.conn i).in_use ≡ false
  alive : is_alive (p.conn i) ≡ true
  fresh : now - (p.conn i).last_used ≤ p.max_idle_time
  open_there : is_stale now (p.conn i) ≡ false
  used : (q.conn i).in_use ≡ true
  off : elem i q.idle_stack ≡ false

under :
    (now k i : ℕ) (rest : List ℕ) (p q : Pool)
    → elem k rest ≡ false
    → Gives now i rest (close_connection k p) q
    → Gives now i (k ∷ rest) p q
unfolding close_connection
under now k i rest p q out g = elim (Bool-cases (i == k)) [
  | inl same ↦
      let both = sym out ∙ ap (λ x. elem x rest) (sym (==→eq i k same)) ∙ g.inside in absurd (cc)
  | inr other ↦
      let kept : (close_connection k p).conn i ≡ p.conn i = rw other refl in
      let used_at = ap (λ (c : Connection). c.last_used) kept in
      record {
        inside = ground (arith, g.inside);
        unused = ap (λ (c : Connection). c.in_use) (sym kept) ∙ g.unused;
        alive = ap is_alive (sym kept) ∙ g.alive;
        fresh = omega (arith, g.fresh, used_at);
        open_there = ap (is_stale now) (sym kept) ∙ g.open_there;
        used = g.used;
        off = g.off;
      }
]

get_idle-Gives :
    (now i : ℕ) (stack : List ℕ) (p : Pool)
    → Tracked p.conn p.created stack p.all
    → (get_idle now stack p).0 ≡ some i
    → Gives now i stack p (get_idle now stack p).1
unfolding get_idle take_idle
get_idle-Gives now i [] p h = λ e. absurd (cc)
get_idle-Gives now i (k ∷ rest) p h =
    let P : Option ℕ × Pool → Type 0 = λ r. r.0 ≡ some i → Gives now i (k ∷ rest) p r.1 in
    let closed : P (get_idle now rest (close_connection k p)) = λ e.
      under now k i rest p _ h.once.0 (
        get_idle-Gives now i rest (close_connection k p)
          (close_idle p.created p.all p.conn k rest h) e) in
    elim (Bool-cases (ltb p.max_idle_time (now - (p.conn k).last_used))) [
      | inl old ↦ subst P (sym (if_true _ _ _ old)) closed
      | inr fresh ↦
          subst P (sym (if_false _ _ _ fresh))
            (elim (Bool-cases (is_alive (p.conn k) && not (is_stale now (p.conn k)))) [
              | inl usable ↦ subst P (sym (if_true _ _ _ usable)) (λ e.
                  let k_is : k ≡ i = cc in
                  subst (λ x. Gives now x (k ∷ rest) p (take_idle k now rest p)) k_is
                    (record {
                      inside = ground arith;
                      unused = h.idle.1;
                      alive = ground (arith, usable);
                      fresh = ltb→le _ _ fresh;
                      open_there = ground (arith, usable);
                      used = rw (eq→== k k refl) refl;
                      off = h.once.0;
                    }))
              | inr dead ↦ subst P (sym (if_false _ _ _ dead)) closed
            ])
    ]

got_from :
    (i : ℕ) (r : Option ℕ × Pool) → (acquired r).0 ≡ got i → (r.0 ≡ some i) × ((acquired r).1 ≡ r.1)
got_from i (some j, q) e = (cc, refl)
got_from i (none, q) e = elim (Bool-cases (can_create q)) [
  | inl room ↦
      let k : creates ≡ got i = sym (ap (λ (r : Progress × Pool). r.0) (if_true _ _ _ room)) ∙ e in
      absurd (cc)
  | inr full ↦
      let k : waits q.futures ≡ got i =
        sym (ap (λ (r : Progress × Pool). r.0) (if_false _ _ _ full)) ∙ e in
      absurd (cc)
]

-- A connection that `acquire` hands out without waiting, in a pool whose bookkeeping is sound, was on
-- the stack and in use by nobody, alive, not closed by the server as far as its check can tell, and
-- not idle for longer than allowed; afterwards it is in use and not on the stack, so that it is not handed out again before it is given back.
pub acquire-exclusive :
    (limits : Limits) (p : Pool) (now i : ℕ)
    → IsSound limits p
    → (acquire now p).0 ≡ got i
    → let q = (acquire now p).1 in
      (elem i p.idle_stack ≡ true)
      × ((p.conn i).in_use ≡ false)
      × (is_alive (p.conn i) ≡ true)
      × (now - (p.conn i).last_used ≤ p.max_idle_time)
      × (is_stale now (p.conn i) ≡ false)
      × ((q.conn i).in_use ≡ true)
      × (elem i q.idle_stack ≡ false)
unfolding acquire
acquire-exclusive limits p now i h e =
    let r = got_from i (try_get_idle now p) e in
    let g = get_idle-Gives now i p.idle_stack p h.objects r.0 in
    (
      g.inside,
      g.unused,
      g.alive,
      g.fresh,
      g.open_there,
      ap (λ (q : Pool). (q.conn i).in_use) r.1 ∙ g.used,
      ap (λ (q : Pool). elem i q.idle_stack) r.1 ∙ g.off,
    )
