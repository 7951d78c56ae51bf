-- ===== src/Client/Pool.antt =====
-- endpoint_client/http.py: `PooledConnection` and `ConnectionPool`. Connections are objects in a
-- store, by number; the stack, the set and the users of the pool refer to them. Times are in
-- nanoseconds. A coroutine of the pool is suspended at a future of `waiters`, after its wake-up
-- (`woken`), at the limiter (`queued`) or in the handshake (`connecting`): the pool keeps how many are.
pub mod Stack
pub mod Objects
pub mod Bounds
pub mod Changes
pub mod Steps
pub mod Handout
use endpoints.Base.{
  ℕ, zero, suc, ◌+◌, ◌-◌, Bool, true, false, ◌&&◌, ◌||◌, not, Option, none, some, List, [], ◌∷◌,
  ◌++◌, ◌==◌, if◌then◌else◌, ltb, length,
}

-- `lost` is the protocol's `_connection_lost`; `must_close` says that its `_should_close` or `_exc` is
-- set; `closing` is the transport's; `readable` is what a poll of the socket would say.
pub record Connection : Type 0 where
  pub last_used : ℕ
  pub in_use : Bool
  pub idle_time_on_acquire : ℕ
  pub lost : Bool
  pub must_close : Bool
  pub closing : Bool
  pub readable : Bool

abbrev pub new_connection : ℕ → Connection
new_connection now = record {
  last_used = now;
  in_use = true;
  idle_time_on_acquire = 0;
  lost = false;
  must_close = false;
  closing = false;
  readable = false;
}

abbrev pub is_alive : Connection → Bool
is_alive c = not c.lost && not c.closing

-- a connection used within the last second is not probed
abbrev pub is_stale : ℕ → Connection → Bool
is_stale now c = if ltb (now - c.last_used) 1_000_000_000 then false else c.readable

-- `should_close` of the protocol
abbrev pub should_close : Connection → Bool
should_close c = c.must_close || c.lost

pub record Pool : Type 0 where
  pub max_connections : Option ℕ
  pub max_idle_time : ℕ
  pub conn : ℕ → Connection
  pub created : ℕ
  pub idle_stack : List ℕ
  pub all : List ℕ
  pub creating : ℕ
  pub limiter : ℕ
  pub waiters : List ℕ
  pub futures : ℕ
  pub woken : ℕ
  pub queued : ℕ
  pub connecting : ℕ

abbrev pub new_pool : Option ℕ → ℕ → ℕ → Pool
new_pool max idle_time permits = record {
  max_connections = max;
  max_idle_time = idle_time;
  conn = λ i. new_connection 0;
  created = 0;
  idle_stack = [];
  all = [];
  creating = 0;
  limiter = permits;
  waiters = [];
  futures = 0;
  woken = 0;
  queued = 0;
  connecting = 0;
}

abbrev pub update : ℕ → Connection → (ℕ → Connection) → ℕ → Connection
update i c f j = if j == i then c else f j

abbrev pub elem : ℕ → List ℕ → Bool
elem i [] = false
elem i (j ∷ js) = j == i || elem i js

-- `discard`
abbrev pub remove : ℕ → List ℕ → List ℕ
remove i [] = []
remove i (j ∷ js) = if j == i then js else j ∷ remove i js

-- `_close_connection`
unfoldable pub close_connection : ℕ → Pool → Pool
close_connection i p = record p {
  conn = update i (record (p.conn i) { closing = true }) p.conn;
  all = remove i p.all;
}

-- The connection that is taken from the top of the stack, with its protocol reset.
unfoldable pub take_idle : ℕ → ℕ → List ℕ → Pool → Pool
take_idle i now rest p = record p {
  conn =
      update i
        (record (p.conn i) {
          in_use = true;
          idle_time_on_acquire = now - (p.conn i).last_used;
          must_close = false;
        })
        p.conn;
  idle_stack = rest;
}

-- The loop of `_try_get_idle` over the stack, whose top is the head.
unfoldable pub get_idle : ℕ → List ℕ → Pool → Option ℕ × Pool
unfolding close_connection take_idle
get_idle now [] p = (none, record p { idle_stack = [] })
get_idle now (i ∷ rest) p =
    let c = p.conn i in
    let closed = get_idle now rest (close_connection i p) in
    if ltb p.max_idle_time (now - c.last_used)
    then closed
    else if is_alive c && not (is_stale now c)
    then (some i, take_idle i now rest p)
    else closed

-- `_try_get_idle`
abbrev pub try_get_idle : ℕ → Pool → Option ℕ × Pool
try_get_idle now p = get_idle now p.idle_stack p

-- `_can_create_connection`
abbrev pub below : Option ℕ → ℕ → Bool
below none n = true
below (some m) n = ltb n m

abbrev pub can_create : Pool → Bool
can_create p = below p.max_connections (length p.all + p.creating)

-- How far a call of `acquire` comes before it is suspended.
pub data Progress : Type 0 where
  got : ℕ → Progress
  creates : Progress
  waits : ℕ → Progress

-- `self._creating += 1`, and the wait for the limiter
abbrev pub begin_create : Pool → Pool
begin_create p = record p { creating = p.creating + 1; queued = p.queued + 1 }

-- a new future at the end of the waiters
abbrev pub begin_wait : Pool → Pool
begin_wait p = record p { waiters = p.waiters ++ p.futures ∷ []; futures = p.futures + 1 }

abbrev pub acquired : Option ℕ × Pool → Progress × Pool
acquired (some i, p) = (got i, p)
acquired (none, p) =
    if can_create p then (creates, begin_create p) else (waits p.futures, begin_wait p)

-- `acquire`, and a round of `_wait_for_connection` after its future was resolved: the code is the same
unfoldable pub acquire : ℕ → Pool → Progress × Pool
unfolding get_idle
acquire now p = acquired (try_get_idle now p)

unfoldable pub resume : ℕ → Pool → Progress × Pool
unfolding acquire
resume now p = acquire now (record p { woken = p.woken - 1 })

-- `_create_connection` when it gets past the limiter: an idle connection is preferred, and the
-- `finally` block gives the slot back; otherwise the handshake begins, with a permit taken
abbrev pub entered : Option ℕ × Pool → Pool
entered (some i, p) = record p { creating = p.creating - 1; queued = p.queued - 1 }
entered (none, p) = record p {
  queued = p.queued - 1;
  connecting = p.connecting + 1;
  limiter = p.limiter - 1;
}

unfoldable pub enter_limiter : ℕ → Pool → Pool
unfolding get_idle
enter_limiter now p = entered (try_get_idle now p)

-- the end of a handshake: the permit and the slot are given back, and the connection is tracked
unfoldable pub connected : ℕ → Pool → Pool
connected now p = record p {
  conn = update p.created (new_connection now) p.conn;
  created = p.created + 1;
  all = p.created ∷ p.all;
  connecting = p.connecting - 1;
  limiter = p.limiter + 1;
  creating = p.creating - 1;
}

-- a handshake that fails
unfoldable pub connect_failed : Pool → Pool
connect_failed p = record p {
  connecting = p.connecting - 1;
  limiter = p.limiter + 1;
  creating = p.creating - 1;
}

-- `_notify_waiter`: the oldest waiter is woken (a waiter that is done is not in the queue)
abbrev pub notified : List ℕ → Pool → Pool
notified [] p = p
notified (w ∷ ws) p = record p { waiters = ws; woken = p.woken + 1 }

unfoldable pub notify_waiter : Pool → Pool
notify_waiter p = notified p.waiters p

abbrev pub returned : ℕ → ℕ → Pool → Pool
returned i now p = record p {
  conn =
      update i (record (p.conn i) { in_use = false; last_used = now; must_close = false }) p.conn;
  idle_stack = i ∷ p.idle_stack;
}

-- `release`
unfoldable pub release : ℕ → ℕ → Pool → Pool
unfolding close_connection notify_waiter
release i now p =
    let c = p.conn i in
    if not c.in_use
    then p
    else if not (is_alive c) || should_close c
    then notify_waiter (close_connection i p)
    else notify_waiter (returned i now p)

-- `close`
unfoldable pub close : Pool → Pool
close p = record p {
  conn = λ i. if elem i p.all then record (p.conn i) { closing = true } else p.conn i;
  waiters = [];
  all = [];
  idle_stack = [];
}

abbrev pub one_if : Bool → ℕ
one_if true = 1
one_if false = 0

abbrev pub busy : (ℕ → Connection) → List ℕ → ℕ
busy f [] = 0
busy f (i ∷ is) = one_if (f i).in_use + busy f is

-- `idle_count`, `total_count` and `in_use_count`
abbrev pub idle_count : Pool → ℕ
idle_count p = length p.idle_stack

abbrev pub total_count : Pool → ℕ
total_count p = length p.all

abbrev pub in_use_count : Pool → ℕ
in_use_count p = busy p.conn p.all

-- What happens in the event loop: a coroutine starts or goes on, a user gives a connection back, the
-- network or a cancellation intervenes.
pub data Step : Type 0 where
  start : ℕ → Step
  wake : ℕ → Step
  enter : ℕ → Step
  connect : ℕ → Step
  refuse : Step
  give_back : ℕ → ℕ → Step
  lose : ℕ → Step
  ask_close : ℕ → Step
  receive : ℕ → Bool → Step
  cancel_waiting : ℕ → Step
  cancel_woken : Step
  cancel_queued : Step
  shut : Step

abbrev pub changed : ℕ → Connection → Pool → Pool
changed i c p = record p { conn = update i c p.conn }

-- A step whose coroutine does not exist changes nothing.
unfoldable pub run_step : Step → Pool → Pool
unfolding acquire resume enter_limiter connected connect_failed release close
run_step (start now) p = (acquire now p).1
run_step (wake now) p = if ltb 0 p.woken then (resume now p).1 else p
run_step (enter now) p = if ltb 0 p.queued && ltb 0 p.limiter then enter_limiter now p else p
run_step (connect now) p = if ltb 0 p.connecting then connected now p else p
run_step refuse p = if ltb 0 p.connecting then connect_failed p else p
run_step (give_back i now) p = if ltb i p.created then release i now p else p
run_step (lose i) p = changed i (record (p.conn i) { lost = true; closing = true }) p
run_step (ask_close i) p = changed i (record (p.conn i) { must_close = true }) p
run_step (receive i b) p = changed i (record (p.conn i) { readable = b }) p
run_step (cancel_waiting w) p = record p { waiters = remove w p.waiters }
run_step cancel_woken p = record p { woken = p.woken - 1 }
run_step cancel_queued p =
    if ltb 0 p.queued then record p { queued = p.queued - 1; creating = p.creating - 1 } else p
run_step shut p = close p

unfoldable pub run_steps : List Step → Pool → Pool
unfolding run_step
run_steps [] p = p
run_steps (x ∷ xs) p = run_steps xs (run_step x p)
