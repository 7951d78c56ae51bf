-- ===== src/LoadGen/SampleOrder/Passes.antt =====
-- load_generator/sample_order.py: what a pass over the dataset issues.
use mathlib.Core.List.{Perm, append-nil}
use mathlib.Core.List.Perm
use mathlib.Core.List as Core
use mathlib.Core.Nat as Nat
use mathlib.Core.Path.{subst}
use native.Mathlib.Nat.{zero-mod, suc-mod, mod-lt}
use endpoints.Base.{
  ℕ, zero, suc, ◌+◌, ◌%◌, ◌≤◌, ◌<◌, false, ◌≡◌, refl, sym, ◌∙◌, ap, Option, some, List, [], ◌∷◌,
  ◌++◌, map, leb, if_true, if_false, length, length-append, get_elem?, arith, le→leb,
}
use endpoints.LoadGen.SampleOrder.{
  range, Shuffled, reset, next_shuffled, take_shuffled, Sequential, new_sequential, next_sequential,
  advance,
}

-- the library's numbers, read as native ones
abbrev to_native : Nat.ℕ → ℕ
to_native Nat.zero = zero
to_native (Nat.suc n) = suc (to_native n)

length-to_native : (xs : List ℕ) → to_native (Core.length xs) ≡ length xs
length-to_native [] = refl
length-to_native (x ∷ xs) = ap suc (length-to_native xs)

Perm-length : {xs ys : List ℕ} → Perm xs ys → length xs ≡ length ys
Perm-length {xs} {ys} p =
    sym (length-to_native xs) ∙ ap to_native (Perm.length-eq p) ∙ length-to_native ys

pub length-range : (n : ℕ) → length (range n) ≡ n
unfolding range
length-range zero = refl
length-range (suc n) = length-append (range n) (n ∷ []) ∙ omega (arith, length-range n)

get_at : (xs ys : List ℕ) (y : ℕ) → get_elem? (xs ++ y ∷ ys) (length xs) ≡ some y
get_at [] ys y = refl
get_at (x ∷ xs) ys y = get_at xs ys y

snoc_split : (xs ys : List ℕ) (y : ℕ) → xs ++ y ∷ ys ≡ (xs ++ y ∷ []) ++ ys
snoc_split [] ys y = refl
snoc_split (x ∷ xs) ys y = ap (◌∷◌ x) (snoc_split xs ys y)

le→leb_false : (a b : ℕ) → b < a → leb a b ≡ false
le→leb_false a b h = ground arith

module _ {G : Type 0} where
  -- An order at the end of a pass over a dataset of `n` samples.
  pub record AtPass (n : ℕ) (s : Shuffled G) : Type 0 where
    pub covers : Perm (range n) s.index_order
    pub exhausted : length s.index_order ≤ s.curr_idx

module _ {G : Type 0} (shuffle : G → List ℕ → List ℕ × G) where
  within :
      (s : Shuffled G)
      → s.curr_idx < length s.index_order
      → next_shuffled shuffle s
        ≡ (get_elem? s.index_order s.curr_idx, record s { curr_idx = s.curr_idx + 1 })
  unfolding next_shuffled
  within s h =
      ap
        (λ (r : Shuffled G).
          (get_elem? r.index_order r.curr_idx, record r { curr_idx = r.curr_idx + 1 }))
        (if_false _ _ _ (le→leb_false _ _ h))

  abbrev then_take : ℕ → Option ℕ × Shuffled G → List (Option ℕ) × Shuffled G
  then_take k (i, t) = (i ∷ (take_shuffled shuffle k t).0, (take_shuffled shuffle k t).1)

  reset-start : (s : Shuffled G) → (reset shuffle s).curr_idx ≡ 0
  unfolding reset
  reset-start s = refl

  shuffled :
      (n : ℕ) (s : Shuffled G)
      → ((g : G) (xs : List ℕ) → Perm xs (shuffle g xs).0)
      → Perm (range n) s.index_order
      → Perm (range n) (reset shuffle s).index_order
  unfolding reset
  shuffled n s permutes p = Perm.trans p (permutes s.rng s.index_order)

  at_end :
      (s : Shuffled G)
      → length s.index_order ≤ s.curr_idx
      → 0 < length (reset shuffle s).index_order
      → next_shuffled shuffle s ≡ next_shuffled shuffle (reset shuffle s)
  unfolding next_shuffled
  at_end s full some_left =
      ap draw (if_true _ _ _ (le→leb _ _ full))
      ∙ sym (
          ap draw (
            if_false _ _ _ (
              le→leb_false (length (reset shuffle s).index_order) (reset shuffle s).curr_idx
                (omega (arith, some_left, reset-start s)))))
    where
      draw : Shuffled G → Option ℕ × Shuffled G
      draw r = (get_elem? r.index_order r.curr_idx, record r { curr_idx = r.curr_idx + 1 })

  take_rest :
      (ys xs : List ℕ) (s : Shuffled G)
      → s.index_order ≡ xs ++ ys
      → s.curr_idx ≡ length xs
      → let (is, t) = take_shuffled shuffle (length ys) s in
        (is ≡ map some ys) × (t.index_order ≡ s.index_order) × (t.curr_idx ≡ length s.index_order)
  unfolding take_shuffled
  take_rest [] xs s e c = (refl, refl, c ∙ ap length (sym (append-nil xs)) ∙ ap length (sym e))
  take_rest (y ∷ ys) xs s e c =
      let here = within s (omega (arith, c, ap length e, length-append xs (y ∷ ys))) in
      let (is, order, at_end) =
        take_rest ys (xs ++ y ∷ []) (record s { curr_idx = s.curr_idx + 1 })
          (e ∙ snoc_split xs ys y) (omega (arith, c, length-append xs (y ∷ []))) in
      let got : get_elem? s.index_order s.curr_idx ≡ some y =
        ap (λ l. get_elem? l s.curr_idx) e ∙ ap (get_elem? (xs ++ y ∷ ys)) c ∙ get_at xs ys y in
      let step = ap (then_take (length ys)) here in
      (
        ap (λ (r : List (Option ℕ) × Shuffled G). r.0) step
            ∙ ap
                (λ o.
                  o
                  ∷ (take_shuffled shuffle (length ys) (record s { curr_idx = s.curr_idx + 1 })).0)
                got
            ∙ ap (◌∷◌ (some y)) is,
        ap (λ (r : List (Option ℕ) × Shuffled G). r.1.index_order) step ∙ order,
        ap (λ (r : List (Option ℕ) × Shuffled G). r.1.curr_idx) step ∙ at_end,
      )

  whole_pass :
      (k : ℕ) (s : Shuffled G)
      → length s.index_order ≤ s.curr_idx
      → 0 < length (reset shuffle s).index_order
      → take_shuffled shuffle (suc k) s ≡ take_shuffled shuffle (suc k) (reset shuffle s)
  unfolding take_shuffled
  whole_pass k s full some_left = ap (then_take k) (at_end s full some_left)

  -- From the end of a pass over a non-empty dataset, and where the shuffle permutes, the next `n` indices all exist and are a permutation of the dataset's indices, and the order is at the end of a pass again.
  pub take_shuffled-Perm :
      (n : ℕ) (s : Shuffled G)
      → ((g : G) (xs : List ℕ) → Perm xs (shuffle g xs).0)
      → 0 < n
      → AtPass n s
      → let (is, t) = take_shuffled shuffle n s in
        (order : List ℕ) × (is ≡ map some order) × Perm (range n) order × AtPass n t
  take_shuffled-Perm zero s permutes some_left h = absurd (omega arith)
  take_shuffled-Perm (suc k) s permutes some_left h =
      let r = reset shuffle s in
      let p : Perm (range (suc k)) r.index_order = shuffled (suc k) s permutes h.covers in
      let size : length r.index_order ≡ suc k = sym (Perm-length p) ∙ length-range (suc k) in
      let (is, order, at_end) = take_rest r.index_order [] r refl (reset-start s) in
      let same =
        whole_pass k s h.exhausted (omega (arith, size))
        ∙ ap (λ m. take_shuffled shuffle m r) (sym size) in
      (
        r.index_order,
        ap (λ (q : List (Option ℕ) × Shuffled G). q.0) same ∙ is,
        p,
        subst (λ (q : List (Option ℕ) × Shuffled G). AtPass (suc k) q.1) (sym same)
            (record {
              covers = subst (Perm (range (suc k))) (sym order) p;
              exhausted = omega (arith, ap length order, at_end);
            }),
      )

new_sequential-eq :
    (n : ℕ) (s : Sequential)
    → new_sequential n ≡ some s
    → (0 < n) × (s ≡ record { n_samples = n; curr_idx = 0 })
unfolding new_sequential
new_sequential-eq n s e = ground arith

advance-mod :
    (n k : ℕ)
    → let s = advance k (record { n_samples = n; curr_idx = 0 }) in
      (s.curr_idx ≡ k % n) × (s.n_samples ≡ n)
unfolding advance next_sequential
advance-mod n zero = (sym (zero-mod n), refl)
advance-mod n (suc k) =
    let (i, same) = advance-mod n k in
    let s = advance k (record { n_samples = n; curr_idx = 0 }) in
    let plus : (k % n) + 1 ≡ suc (k % n) = omega arith in
    (
      ap (λ m. (s.curr_idx + 1) % m) same
          ∙ ap (λ c. (c + 1) % n) i
          ∙ ap (λ c. c % n) plus
          ∙ sym (suc-mod k n),
      same,
    )

-- The sequential order over a dataset yields, at its call number k (from 0), the index k modulo the dataset's size, which lies in the dataset.
pub next_sequential-mod :
    (n k : ℕ) (s : Sequential)
    → new_sequential n ≡ some s
    → let i = (next_sequential (advance k s)).0 in (i ≡ k % n) × (i < n)
unfolding next_sequential
next_sequential-mod n k s e =
    let (positive, made) = new_sequential-eq n s e in
    let i = ap (λ (t : Sequential). (advance k t).curr_idx) made ∙ (advance-mod n k).0 in
    (i, subst (λ j. j < n) (sym i) (mod-lt k positive))
