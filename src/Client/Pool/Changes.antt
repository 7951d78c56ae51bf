-- ===== src/Client/Pool/Changes.antt =====
-- endpoint_client/http.py: releases, handshakes and the network keep the limits of the pool.
use mathlib.Core.Path.{subst}
use endpoints.Base.{
  ℕ, suc, ◌+◌, ◌-◌, ◌≤◌, ◌<◌, true, false, ◌||◌, not, ◌≡◌, refl, sym, ◌∙◌, ap, List, [], ◌∷◌, ◌==◌,
  length, arith, Bool-cases, inl, inr, ==→eq, eq→==, if_true, if_false,
}
use endpoints.Client.Pool.{
  Connection, Pool, new_connection, is_alive, should_close, update, elem, remove, close_connection,
  connected, connect_failed, notified, notify_waiter, release, close, busy, one_if, changed,
}
use endpoints.Client.Pool.Stack.{Idle, Below, Tracked, busy-update, busy-update_absent}
use endpoints.Client.Pool.Objects.{Closed-update, free_used, close_used}
use endpoints.Client.Pool.Bounds.{Bounded, Bounded-le, Limits, IsSound}

notified-IsSound :
    (limits : Limits) (ws : List ℕ) (p : Pool) → IsSound limits p → IsSound limits (notified ws p)
notified-IsSound limits [] p h = h
notified-IsSound limits (w ∷ ws) p h = record {
  objects = h.objects;
  bounded = h.bounded;
  making = h.making;
  paced = h.paced;
  limit = h.limit;
}

notify-IsSound : (limits : Limits) (p : Pool) → IsSound limits p → IsSound limits (notify_waiter p)
unfolding notify_waiter
notify-IsSound limits p h = notified-IsSound limits p.waiters p h

length-remove-le : (i : ℕ) (l : List ℕ) → length (remove i l) ≤ length l
length-remove-le i [] = omega arith
length-remove-le i (k ∷ l) = ground (arith, length-remove-le i l)

pub release-IsSound :
    (limits : Limits) (i now : ℕ) (p : Pool)
    → i < p.created
    → IsSound limits p
    → IsSound limits (release i now p)
unfolding release close_connection
release-IsSound limits i now p lt h = elim (Bool-cases (p.conn i).in_use) [
  | inr unused ↦ subst (IsSound limits) (sym (if_true _ _ _ (ap not unused))) h
  | inl used ↦
      subst (IsSound limits) (sym (if_false _ _ _ (ap not used)))
        (elim (Bool-cases (not (is_alive (p.conn i)) || should_close (p.conn i))) [
          | inl dead ↦ subst (IsSound limits) (sym (if_true _ _ _ dead)) (
              notify-IsSound limits _ (record {
                objects = close_used p.created p.all p.conn i p.idle_stack used h.objects;
                bounded =
                    Bounded-le p.max_connections (length (remove i p.all) + p.creating)
                      (length p.all + p.creating) (omega (arith, length-remove-le i p.all))
                      h.bounded;
                making = h.making;
                paced = h.paced;
                limit = h.limit;
              }))
          | inr usable ↦ subst (IsSound limits) (sym (if_false _ _ _ usable)) (
              notify-IsSound limits _ (record {
                objects =
                    free_used p.created p.all p.conn i _ p.idle_stack lt used
                      (ground (arith, usable)) refl h.objects;
                bounded = h.bounded;
                making = h.making;
                paced = h.paced;
                limit = h.limit;
              }))
        ])
]

Below-absent : (n : ℕ) (l : List ℕ) → Below n l → elem n l ≡ false
Below-absent n [] h = refl
Below-absent n (k ∷ l) h = ground (arith, h.0, Below-absent n l h.1)

Below-suc : (n : ℕ) (l : List ℕ) → Below n l → Below (n + 1) l
Below-suc n [] h = tt
Below-suc n (k ∷ l) h = (omega (arith, h.0), Below-suc n l h.1)

Below-elem : (n i : ℕ) (l : List ℕ) → Below n l → elem i l ≡ true → i < n
Below-elem n i [] h e = absurd (cc)
Below-elem n i (k ∷ l) h e = ground (arith, h.0, Below-elem n i l h.1)

Idle-new :
    (n : ℕ) (c : Connection) (f : ℕ → Connection) (all stack : List ℕ)
    → Below n all
    → Idle f all stack
    → Idle (update n c f) (n ∷ all) stack
Idle-new n c f all [] b h = tt
Idle-new n c f all (k ∷ l) b h =
    let other : (k == n) ≡ false = ground (arith, Below-elem n k all b h.0) in
    let member : (n == k || elem k all) ≡ true = ground (arith, h.0) in
    (member, rw other h.1, Idle-new n c f all l b h.2)

new_connection-Tracked :
    (n now : ℕ) (f : ℕ → Connection) (stack all : List ℕ)
    → Tracked f n stack all
    → Tracked (update n (new_connection now) f) (n + 1) stack (n ∷ all)
new_connection-Tracked n now f stack all h =
    let absent = Below-absent n all h.known in
    record {
      distinct = (absent, h.distinct);
      once = h.once;
      idle = Idle-new n (new_connection now) f all stack h.known h.idle;
      closed = λ j lt gone.
          let other : (j == n) ≡ false = ground (arith, gone) in
          rw other (h.closed j (ground (arith, other, lt)) (ground (arith, gone)));
      known = (omega arith, Below-suc n all h.known);
      counted =
          rw (eq→== n n refl)
            (omega (arith, busy-update_absent n (new_connection now) f all absent, h.counted));
    }

Idle-same :
    (i : ℕ) (c : Connection) (f : ℕ → Connection) (all stack : List ℕ)
    → c.in_use ≡ (f i).in_use
    → Idle f all stack
    → Idle (update i c f) all stack
Idle-same i c f all [] e h = tt
Idle-same i c f all (k ∷ l) e h = elim (Bool-cases (k == i)) [
  | inl same ↦
      let k_is = ap (λ x. (f x).in_use) (==→eq k i same) in
      (h.0, rw same (e ∙ sym k_is ∙ h.1), Idle-same i c f all l e h.2)
  | inr other ↦ (h.0, rw other h.1, Idle-same i c f all l e h.2)
]

-- The network changes what the pool knows of a connection, but not whether it is in use.
pub changed-IsSound :
    (limits : Limits) (i : ℕ) (c : Connection) (p : Pool)
    → c.in_use ≡ (p.conn i).in_use
    → ((p.conn i).closing ≡ true → c.closing ≡ true)
    → IsSound limits p
    → IsSound limits (changed i c p)
changed-IsSound limits i c p same closes h =
    let t = h.objects in
    record {
      objects = record {
        distinct = t.distinct;
        once = t.once;
        idle = Idle-same i c p.conn p.all p.idle_stack same t.idle;
        closed = Closed-update p.created p.all p.conn i c closes t.closed;
        known = t.known;
        counted =
            let users = ap one_if same in
            elim (Bool-cases (elem i p.all)) [
              | inl inside ↦
                  omega (arith, t.counted, users, busy-update i c p.conn p.all t.distinct inside)
              | inr gone ↦ rw (busy-update_absent i c p.conn p.all gone) t.counted
            ];
      };
      bounded = h.bounded;
      making = h.making;
      paced = h.paced;
      limit = h.limit;
    }

pub connected-IsSound :
    (limits : Limits) (now : ℕ) (p : Pool)
    → 0 < p.connecting
    → IsSound limits p
    → IsSound limits (connected now p)
unfolding connected
connected-IsSound limits now p busy h = record {
  objects = new_connection-Tracked p.created now p.conn p.idle_stack p.all h.objects;
  bounded =
      Bounded-le p.max_connections (suc (length p.all) + (p.creating - 1))
        (length p.all + p.creating) (omega (arith, h.making)) h.bounded;
  making = omega (arith, h.making);
  paced = omega (arith, h.paced);
  limit = h.limit;
}

pub fewer_slots :
    (p : Pool) (n : ℕ)
    → n ≤ p.creating
    → Bounded p.max_connections (length p.all + p.creating)
    → Bounded p.max_connections (length p.all + n)
fewer_slots p n le h =
    Bounded-le p.max_connections (length p.all + n) (length p.all + p.creating) (omega arith) h

pub failed-IsSound :
    (limits : Limits) (p : Pool)
    → 0 < p.connecting
    → IsSound limits p
    → IsSound limits (connect_failed p)
unfolding connect_failed
failed-IsSound limits p busy h = record {
  objects = h.objects;
  bounded = fewer_slots p (p.creating - 1) (omega arith) h.bounded;
  making = omega (arith, h.making);
  paced = omega (arith, h.paced);
  limit = h.limit;
}

pub close-IsSound : (limits : Limits) (p : Pool) → IsSound limits p → IsSound limits (close p)
unfolding close
close-IsSound limits p h = record {
  objects = record {
    distinct = tt;
    once = tt;
    idle = tt;
    closed = λ i lt gone. elim (Bool-cases (elem i p.all)) [
      | inl inside ↦ rw inside refl
      | inr out ↦ rw out (h.objects.closed i lt out)
    ];
    known = tt;
    counted = omega arith;
  };
  bounded =
      Bounded-le p.max_connections (0 + p.creating) (length p.all + p.creating) (omega arith)
        h.bounded;
  making = h.making;
  paced = h.paced;
  limit = h.limit;
}
