-- ===== src/Client/Pool/Objects.antt =====
-- endpoint_client/http.py: what taking, returning and closing do to the objects of the pool.
use endpoints.Base.{
  ℕ, ◌<◌, true, false, ◌≡◌, refl, sym, ◌∙◌, List, [], ◌∷◌, ◌==◌, arith, Bool-cases, inl, inr, ==→eq,
  eq→==,
}
use endpoints.Client.Pool.{Connection, update, elem, remove, one_if}
use endpoints.Client.Pool.Stack.{
  Idle, Closed, Tracked, elem-remove_other, remove-Distinct, remove-Below, length-remove,
  remove-absent, busy-update_absent, busy-update, busy-remove,
}

module _ (f : ℕ → Connection) (i : ℕ) where
  -- The stack's other connections are as they were.
  Idle-update :
      (c : Connection) (all : List ℕ) (stack : List ℕ)
      → elem i stack ≡ false
      → Idle f all stack
      → Idle (update i c f) all stack
  Idle-update c all [] e h = tt
  Idle-update c all (k ∷ l) e h = elim (Bool-cases (k == i)) [
    | inl same ↦ absurd (ground (arith, same, e))
    | inr other ↦ (h.0, rw other h.1, Idle-update c all l (ground (arith, other, e)) h.2)
  ]

  Idle-remove :
      (all stack : List ℕ) → elem i stack ≡ false → Idle f all stack → Idle f (remove i all) stack
  Idle-remove all [] e h = tt
  Idle-remove all (k ∷ l) e h = elim (Bool-cases (k == i)) [
    | inl same ↦ absurd (ground (arith, same, e))
    | inr other ↦ (
      elem-remove_other i k all other ∙ h.0,
      h.1,
      Idle-remove all l (ground (arith, other, e)) h.2,
    )
  ]

module _ (n : ℕ) (all : List ℕ) (f : ℕ → Connection) (i : ℕ) where
  Closed-remove :
      (c : Connection) → c.closing ≡ true → Closed f all n → Closed (update i c f) (remove i all) n
  Closed-remove c e h j lt gone = elim (Bool-cases (j == i)) [
    | inl same ↦ rw same e
    | inr other ↦ rw other (h j lt (sym (elem-remove_other i j all other) ∙ gone))
  ]

  pub Closed-update :
      (c : Connection)
      → ((f i).closing ≡ true → c.closing ≡ true)
      → Closed f all n
      → Closed (update i c f) all n
  Closed-update c e h j lt gone = elim (Bool-cases (j == i)) [
    | inl same ↦ rw same (e (rw (sym (==→eq j i same)) (h j lt gone)))
    | inr other ↦ rw other (h j lt gone)
  ]

  -- An idle connection that is closed.
  pub close_idle :
      (stack : List ℕ)
      → Tracked f n (i ∷ stack) all
      → Tracked (update i (record (f i) { closing = true }) f) n stack (remove i all)
  close_idle stack h =
      let c : Connection = record (f i) { closing = true } in
      record {
        distinct = remove-Distinct i all h.distinct;
        once = h.once.1;
        idle =
            Idle-update f i c (remove i all) stack h.once.0
              (Idle-remove f i all stack h.once.0 h.idle.2);
        closed = Closed-remove c refl h.closed;
        known = remove-Below i n all h.known;
        counted =
            let unused : one_if (f i).in_use ≡ 0 = rw h.idle.1 refl in
            omega (
              arith,
              h.counted,
              unused,
              length-remove i all h.idle.0,
              busy-remove i c f all h.distinct h.idle.0,
            );
      }

  -- An idle connection that is taken into use.
  pub use_idle :
      (c : Connection) (stack : List ℕ)
      → c.in_use ≡ true
      → c.closing ≡ (f i).closing
      → Tracked f n (i ∷ stack) all
      → Tracked (update i c f) n stack all
  use_idle c stack taken same h = record {
    distinct = h.distinct;
    once = h.once.1;
    idle = Idle-update f i c all stack h.once.0 h.idle.2;
    closed = Closed-update c (λ e. same ∙ e) h.closed;
    known = h.known;
    counted =
        let unused : one_if (f i).in_use ≡ 0 = rw h.idle.1 refl in
        let used : one_if c.in_use ≡ 1 = rw taken refl in
        omega (arith, h.counted, unused, used, busy-update i c f all h.distinct h.idle.0);
  }

  -- A connection in use is not idle, and one that can be used again is tracked.
  off_stack : (stack : List ℕ) → (f i).in_use ≡ true → Idle f all stack → elem i stack ≡ false
  off_stack [] e h = refl
  off_stack (k ∷ l) e h = elim (Bool-cases (k == i)) [
    | inl same ↦
        let k_is : k ≡ i = ==→eq k i same in
        let unused : (f i).in_use ≡ false = rw (sym k_is) h.1 in absurd (cc)
    | inr other ↦ rw other (off_stack l e h.2)
  ]

  is_tracked : i < n → (f i).closing ≡ false → Closed f all n → elem i all ≡ true
  is_tracked lt opened h = elim (Bool-cases (elem i all)) [
    | inl inside ↦ inside
    | inr gone ↦ let k = h i lt gone in absurd (cc)
  ]

  -- A connection that is given back.
  pub free_used :
      (c : Connection) (stack : List ℕ)
      → i < n
      → (f i).in_use ≡ true
      → (f i).closing ≡ false
      → c.in_use ≡ false
      → Tracked f n stack all
      → Tracked (update i c f) n (i ∷ stack) all
  free_used c stack lt used opened freed h =
      let inside = is_tracked lt opened h.closed in
      let out = off_stack stack used h.idle in
      record {
        distinct = h.distinct;
        once = (out, h.once);
        idle = (inside, rw (eq→== i i refl) freed, Idle-update f i c all stack out h.idle);
        closed = Closed-update c (λ e. absurd (cc)) h.closed;
        known = h.known;
        counted =
            let one : one_if (f i).in_use ≡ 1 = rw used refl in
            let zero : one_if c.in_use ≡ 0 = rw freed refl in
            omega (arith, h.counted, one, zero, busy-update i c f all h.distinct inside);
      }

  -- A connection in use that is closed, tracked or not.
  pub close_used :
      (stack : List ℕ)
      → (f i).in_use ≡ true
      → Tracked f n stack all
      → Tracked (update i (record (f i) { closing = true }) f) n stack (remove i all)
  close_used stack used h =
      let c : Connection = record (f i) { closing = true } in
      let out = off_stack stack used h.idle in
      record {
        distinct = remove-Distinct i all h.distinct;
        once = h.once;
        idle = Idle-update f i c (remove i all) stack out (Idle-remove f i all stack out h.idle);
        closed = Closed-remove c refl h.closed;
        known = remove-Below i n all h.known;
        counted =
            let one : one_if (f i).in_use ≡ 1 = rw used refl in
            elim (Bool-cases (elem i all)) [
              | inl inside ↦ omega (
                arith,
                h.counted,
                one,
                length-remove i all inside,
                busy-remove i c f all h.distinct inside,
              )
              | inr gone ↦
                  rw (remove-absent i all gone, busy-update_absent i c f all gone) h.counted
            ];
      }
