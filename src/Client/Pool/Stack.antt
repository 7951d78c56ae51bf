-- ===== src/Client/Pool/Stack.antt =====
-- endpoint_client/http.py: the objects of the pool, and counts of those in use.
use endpoints.Base.{
  ℕ, ◌+◌, ◌<◌, true, false, ◌≡◌, refl, sym, ◌∙◌, ap, List, [], ◌∷◌, ◌==◌, length, arith, Bool-cases,
  inl, inr, ==→eq,
}
use endpoints.Client.Pool.{Connection, update, elem, remove, busy, one_if}

abbrev pub Distinct : List ℕ → Type 0
Distinct [] = Unit {0}
Distinct (x ∷ xs) = (elem x xs ≡ false) × Distinct xs

-- every connection of the stack is tracked, and not in use
abbrev pub Idle : (ℕ → Connection) → List ℕ → List ℕ → Type 0
Idle f all [] = Unit {0}
Idle f all (i ∷ is) = (elem i all ≡ true) × ((f i).in_use ≡ false) × Idle f all is

-- connections that are not in a list are closed
abbrev pub Closed : (ℕ → Connection) → List ℕ → ℕ → Type 0
Closed f all n = (i : ℕ) → i < n → elem i all ≡ false → (f i).closing ≡ true

abbrev pub Below : ℕ → List ℕ → Type 0
Below n [] = Unit {0}
Below n (i ∷ is) = (i < n) × Below n is

-- The objects of a pool: its store, how many were created, the stack and the tracked set.
pub record Tracked (f : ℕ → Connection) (n : ℕ) (stack all : List ℕ) : Type 0 where
  pub distinct : Distinct all
  pub once : Distinct stack
  pub idle : Idle f all stack
  pub closed : Closed f all n
  pub known : Below n all
  pub counted : length stack + busy f all ≡ length all

module _ (i : ℕ) where
  pub elem-remove_other : (j : ℕ) (l : List ℕ) → (j == i) ≡ false → elem j (remove i l) ≡ elem j l
  elem-remove_other j [] h = refl
  elem-remove_other j (k ∷ l) h = ground (arith, elem-remove_other j l h)

  pub elem-remove_self : (l : List ℕ) → Distinct l → elem i (remove i l) ≡ false
  elem-remove_self [] d = refl
  elem-remove_self (k ∷ l) d = ground (arith, d.0, elem-remove_self l d.1)

  pub remove-Distinct : (l : List ℕ) → Distinct l → Distinct (remove i l)
  remove-Distinct [] d = tt
  remove-Distinct (k ∷ l) d = elim (Bool-cases (k == i)) [
    | inl same ↦ rw same d.1
    | inr other ↦ rw other (elem-remove_other k l other ∙ d.0, remove-Distinct l d.1)
  ]

  pub remove-Below : (n : ℕ) (l : List ℕ) → Below n l → Below n (remove i l)
  remove-Below n [] b = tt
  remove-Below n (k ∷ l) b = elim (Bool-cases (k == i)) [
    | inl same ↦ rw same b.1
    | inr other ↦ rw other (b.0, remove-Below n l b.1)
  ]

  pub length-remove : (l : List ℕ) → elem i l ≡ true → length (remove i l) + 1 ≡ length l
  length-remove [] e = absurd (cc)
  length-remove (k ∷ l) e = ground (arith, length-remove l)

  pub remove-absent : (l : List ℕ) → elem i l ≡ false → remove i l ≡ l
  remove-absent [] e = refl
  remove-absent (k ∷ l) e = ground (arith, remove-absent l)

  module _ (c : Connection) (f : ℕ → Connection) where
    pub busy-update_absent : (l : List ℕ) → elem i l ≡ false → busy (update i c f) l ≡ busy f l
    busy-update_absent [] e = refl
    busy-update_absent (k ∷ l) e = ground (arith, busy-update_absent l)

    -- a new state of one connection of the set
    pub busy-update :
        (l : List ℕ)
        → Distinct l
        → elem i l ≡ true
        → busy (update i c f) l + one_if (f i).in_use ≡ busy f l + one_if c.in_use
    busy-update [] d e = absurd (cc)
    busy-update (k ∷ l) d e = elim (Bool-cases (k == i)) [
      | inl same ↦
          let k_is : k ≡ i = ==→eq k i same in
          let absent : elem i l ≡ false = ap (λ x. elem x l) (sym k_is) ∙ d.0 in
          let users = ap {B = ℕ} (λ x. one_if (f x).in_use) k_is in
          let rest = busy-update_absent l absent in rw same (omega (arith, users, rest))
      | inr other ↦
          let inside : elem i l ≡ true = ground (arith, other, e) in
          rw other (omega (arith, busy-update l d.1 inside))
    ]

    pub busy-remove :
        (l : List ℕ)
        → Distinct l
        → elem i l ≡ true
        → busy (update i c f) (remove i l) + one_if (f i).in_use ≡ busy f l
    busy-remove [] d e = absurd (cc)
    busy-remove (k ∷ l) d e = elim (Bool-cases (k == i)) [
      | inl same ↦
          let k_is : k ≡ i = ==→eq k i same in
          let absent : elem i l ≡ false = ap (λ x. elem x l) (sym k_is) ∙ d.0 in
          let users = ap {B = ℕ} (λ x. one_if (f x).in_use) k_is in
          let rest = busy-update_absent l absent in rw same (omega (arith, users, rest))
      | inr other ↦
          let inside : elem i l ≡ true = ground (arith, other, e) in
          rw (other, other) (omega (arith, busy-remove l d.1 inside))
    ]
