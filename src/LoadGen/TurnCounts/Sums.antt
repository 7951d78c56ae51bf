-- ===== src/LoadGen/TurnCounts/Sums.antt =====
-- load_generator/agentic_inference_strategy.py: sums of turn counts.
use mathlib.Core.List.{Perm}
use mathlib.Core.List.Perm
use mathlib.Core.List as Core
use mathlib.Core.Option.{is_set as Option-set}
use native.Mathlib.Nat.{ℕ_set}
use endpoints.Base.{
  ℕ, zero, suc, ◌+◌, ◌≤◌, ◌<◌, ◌≡◌, refl, sym, ◌∙◌, ap, Option, none, some, List, [], ◌∷◌, ◌++◌,
  map, length, get_elem?, arith,
}
use endpoints.LoadGen.SampleOrder.{range}
use endpoints.LoadGen.TurnCounts.{counted, turns_at, sum_turns}

abbrev pub total : List ℕ → ℕ
total [] = 0
total (n ∷ ns) = n + total ns

counted_comm : (a b c : Option ℕ) → counted a (counted b c) ≡ counted b (counted a c)
counted_comm (some a) (some b) (some c) = ap some (omega arith)
counted_comm none none c = refl
counted_comm none (some b) none = refl
counted_comm none (some b) (some c) = refl
counted_comm (some a) none none = refl
counted_comm (some a) none (some c) = refl
counted_comm (some a) (some b) none = refl

pub counted_assoc : (a b c : Option ℕ) → counted (counted a b) c ≡ counted a (counted b c)
counted_assoc none b c = refl
counted_assoc (some a) none c = refl
counted_assoc (some a) (some b) none = refl
counted_assoc (some a) (some b) (some c) = ap some (omega arith)

counted_zero : (a : Option ℕ) → counted (some 0) a ≡ a
counted_zero none = refl
counted_zero (some a) = ap some (omega arith)

module _ (counts : List ℕ) where
  pub sum_turns-append :
      (xs ys : List (Option ℕ))
      → sum_turns counts (xs ++ ys) ≡ counted (sum_turns counts xs) (sum_turns counts ys)
  unfolding sum_turns
  sum_turns-append [] ys = sym (counted_zero (sum_turns counts ys))
  sum_turns-append (x ∷ xs) ys =
      ap (counted (turns_at counts x)) (sum_turns-append xs ys)
      ∙ sym (counted_assoc (turns_at counts x) (sum_turns counts xs) (sum_turns counts ys))

  abbrev add_turns : ℕ → Option ℕ → Option ℕ
  add_turns i t = counted (get_elem? counts i) t

  sum_turns-foldr :
      (xs : List ℕ) → sum_turns counts (map some xs) ≡ Core.foldr add_turns (some 0) xs
  unfolding sum_turns
  sum_turns-foldr [] = refl
  sum_turns-foldr (x ∷ xs) = ap (add_turns x) (sum_turns-foldr xs)

pub get_at : (xs ys : List ℕ) (y : ℕ) → get_elem? (xs ++ y ∷ ys) (length xs) ≡ some y
get_at [] ys y = refl
get_at (x ∷ xs) ys y = get_at xs ys y

pub snoc_split : (xs ys : List ℕ) (y : ℕ) → xs ++ y ∷ ys ≡ (xs ++ y ∷ []) ++ ys
snoc_split [] ys y = refl
snoc_split (x ∷ xs) ys y = ap (◌∷◌ x) (snoc_split xs ys y)

map-append : (xs ys : List ℕ) → map some (xs ++ ys) ≡ map some xs ++ map some ys
map-append [] ys = refl
map-append (x ∷ xs) ys = ap (◌∷◌ (some x)) (map-append xs ys)

abbrev total_first : ℕ → List ℕ → ℕ
total_first zero xs = 0
total_first (suc k) [] = 0
total_first (suc k) (x ∷ xs) = x + total_first k xs

first_next :
    (k : ℕ) (xs : List ℕ)
    → k < length xs
    → (v : ℕ) × (get_elem? xs k ≡ some v) × (total_first (suc k) xs ≡ total_first k xs + v)
first_next k [] h = absurd (omega arith)
first_next zero (x ∷ xs) h = (x, refl, omega arith)
first_next (suc k) (x ∷ xs) h =
    let (v, got, more) = first_next k xs (omega (arith, h)) in (v, got, omega (arith, more))

first_all : (xs : List ℕ) → total_first (length xs) xs ≡ total xs
first_all [] = refl
first_all (x ∷ xs) = ap (◌+◌ x) (first_all xs)

module _ (counts : List ℕ) where
  sum_range :
      (k : ℕ)
      → k ≤ length counts
      → sum_turns counts (map some (range k)) ≡ some (total_first k counts)
  unfolding sum_turns range
  sum_range zero h = refl
  sum_range (suc k) h =
      let (v, got, more) = first_next k counts (omega (arith, h)) in
      ap (sum_turns counts) (map-append (range k) (k ∷ []))
      ∙ sum_turns-append counts (map some (range k)) (some k ∷ [])
      ∙ ap (λ t. counted t (counted (get_elem? counts k) (some 0))) (sum_range k (omega (arith, h)))
      ∙ ap (λ t. counted (some (total_first k counts)) (counted t (some 0))) got
      ∙ ap some (omega (arith, more))

  pub sum_order :
      (order : List ℕ)
      → Perm (range (length counts)) order
      → sum_turns counts (map some order) ≡ some (total counts)
  sum_order order p =
      sum_turns-foldr counts order
      ∙ sym (
          Perm.foldr-eq (Option-set ℕ_set) (add_turns counts)
            (λ a b t. counted_comm (get_elem? counts a) (get_elem? counts b) t) p (some 0))
      ∙ sym (sum_turns-foldr counts (range (length counts)))
      ∙ sum_range (length counts) (omega arith)
      ∙ ap some (first_all counts)
