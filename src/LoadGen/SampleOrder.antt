-- ===== src/LoadGen/SampleOrder.antt =====
-- load_generator/sample_order.py: the orders in which dataset indices are issued. `shuffle` and
-- `randint` are the random generator's, on its state `G`.
pub mod Passes
use endpoints.Base.{
  ℕ, zero, suc, ◌+◌, ◌-◌, ◌%◌, Bool, true, false, Option, none, some, List, [], ◌∷◌, ◌++◌, ltb, leb,
  ◌==◌, if◌then◌else◌, length, get_elem?,
}

-- `list(range(n))`
unfoldable pub range : ℕ → List ℕ
range zero = []
range (suc n) = range n ++ n ∷ []

module _ (G : Type 0) where
  -- `WithoutReplacementSampleOrder`
  pub record Shuffled : Type 0 where
    pub rng : G
    pub index_order : List ℕ
    pub curr_idx : ℕ

  pub record Drawn : Type 0 where
    pub rng : G
    pub n_samples : ℕ

-- `SequentialSampleOrder`
pub record Sequential : Type 0 where
  pub n_samples : ℕ
  pub curr_idx : ℕ

-- The constructors; `none` is `ValueError`.
unfoldable pub new_shuffled : {G : Type 0} → G → ℕ → Option (Shuffled G)
new_shuffled rng n =
    if n == 0 then none else some (record { rng = rng; index_order = range n; curr_idx = n + 1 })

unfoldable pub new_sequential : ℕ → Option Sequential
new_sequential n = if n == 0 then none else some (record { n_samples = n; curr_idx = 0 })

-- `SingleSampleOrder`: the index that it always yields
unfoldable pub new_single : ℕ → ℕ → Option ℕ
new_single index n = if n == 0 then none else if ltb index n then some index else none

module _ {G : Type 0} (shuffle : G → List ℕ → List ℕ × G) where
  -- `_reset`
  unfoldable pub reset : Shuffled G → Shuffled G
  reset s =
      let (order, rng) = shuffle s.rng s.index_order in
      record { rng = rng; index_order = order; curr_idx = 0 }

  -- `next_sample_index`: the index (`none` is `IndexError`), and the order after it
  unfoldable pub next_shuffled : Shuffled G → Option ℕ × Shuffled G
  next_shuffled s =
      let r = if leb (length s.index_order) s.curr_idx then reset s else s in
      (get_elem? r.index_order r.curr_idx, record r { curr_idx = r.curr_idx + 1 })

  -- the next `k` indices
  unfoldable pub take_shuffled : ℕ → Shuffled G → List (Option ℕ) × Shuffled G
  take_shuffled zero s = ([], s)
  take_shuffled (suc k) s =
      let (i, t) = next_shuffled s in let (is, u) = take_shuffled k t in (i ∷ is, u)

unfoldable pub next_sequential : Sequential → ℕ × Sequential
next_sequential s = (s.curr_idx, record s { curr_idx = (s.curr_idx + 1) % s.n_samples })

-- the order after `k` calls
unfoldable pub advance : ℕ → Sequential → Sequential
advance zero s = s
advance (suc k) s = (next_sequential (advance k s)).1

-- `WithReplacementSampleOrder`, where `randint g n` is a number below `n`
unfoldable pub next_drawn : {G : Type 0} → (G → ℕ → ℕ × G) → Drawn G → ℕ × Drawn G
next_drawn randint s = let (i, g) = randint s.rng s.n_samples in (i, record s { rng = g })
