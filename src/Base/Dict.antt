-- ===== src/Base/Dict.antt =====
-- A Python dict keyed by strings, as an association list in insertion order.
use Prim.Native.String.{String}
use Prim.Native.Nat.{ℕ, ◌+◌, ◌≤◌, suc}
use mathlib.Core.Path.{◌≡◌, refl, ap, ◌∙◌}
use mathlib.Core.Logic.{inl, inr}
use mathlib.Core.Bool.{Bool, true}
use mathlib.Core.Option.{Option, none, some}
use mathlib.Core.List.{List, [], ◌∷◌}
use native.Mathlib.Omega.{arith}
use text.Mathlib.Text.{◌==◌ as str_eq}
use text.Mathlib.TextEquality.{eq_iff}
use endpoints.Base.Tests.{if◌then◌else◌, is_some, Bool-cases, if_true, if_false}
use endpoints.Base.Lists.{length}

abbrev pub Dict {ℓ} : Type ℓ → Type ℓ
Dict V = List (String × V)

module _ {ℓ} {V : Type ℓ} where
  -- `d.get(k)`
  unfoldable pub lookup : String → Dict V → Option V
  lookup k [] = none
  lookup k ((j, v) ∷ d) = if str_eq j k then some v else lookup k d

  -- `d[k] = v`
  unfoldable pub insert : String → V → Dict V → Dict V
  insert k v [] = (k, v) ∷ []
  insert k v ((j, w) ∷ d) = if str_eq j k then (k, v) ∷ d else (j, w) ∷ insert k v d

  -- `d.pop(k, None)` and `del d[k]`
  unfoldable pub erase : String → Dict V → Dict V
  erase k [] = []
  erase k ((j, w) ∷ d) = if str_eq j k then d else (j, w) ∷ erase k d

  -- `k in d`
  abbrev pub contains : String → Dict V → Bool
  contains k d = is_some (lookup k d)

  pub lookup-insert :
      (k j : String) (v : V) (d : Dict V)
      → lookup j (insert k v d) ≡ (if str_eq k j then some v else lookup j d)
  unfolding lookup insert
  lookup-insert k j v [] = refl
  lookup-insert k j v ((i, w) ∷ d) =
      ground (arith, eq_iff k j, eq_iff i k, eq_iff i j, lookup-insert k j v d)

  pub length-insert :
      (k : String) (v : V) (d : Dict V)
      → length (insert k v d) ≡ (if contains k d then length d else suc (length d))
  unfolding lookup insert
  length-insert k v [] = refl
  length-insert k v ((i, w) ∷ d) = ground (arith, length-insert k v d)

  -- `pop` removes one entry, or none.
  pub length-erase :
      (k : String) (d : Dict V) → length (erase k d) + (if contains k d then 1 else 0) ≡ length d
  unfolding lookup erase
  length-erase k [] = omega arith
  length-erase k ((i, w) ∷ d) = elim (Bool-cases (str_eq i k)) [
    | inl same ↦ rw same (omega arith)
    | inr other ↦ rw other (omega (arith, length-erase k d))
  ]

  pub insert-ne_nil : (k : String) (v : V) (d : Dict V) → ¬ (insert k v d ≡ [])
  unfolding insert
  insert-ne_nil k v [] = λ e. cc
  insert-ne_nil k v ((i, w) ∷ d) = elim (Bool-cases (str_eq i k)) [
    | inl same ↦ rw same (λ e. cc)
    | inr other ↦ rw other (λ e. cc)
  ]

  -- A key that is there stays there.
  pub contains-insert :
      (j k : String) (v : V) (d : Dict V) → contains k d ≡ true → contains k (insert j v d) ≡ true
  contains-insert j k v d h =
      ap is_some (lookup-insert j k v d)
      ∙ (elim (Bool-cases (str_eq j k)) [ inl same ↦ rw same refl | inr other ↦ rw other h ])

  pub length-insert_le : (k : String) (v : V) (d : Dict V) → length (insert k v d) ≤ suc (length d)
  length-insert_le k v d = elim (Bool-cases (contains k d)) [
    | inl there ↦ let e = length-insert k v d ∙ if_true _ _ _ there in omega (arith, e)
    | inr absent ↦ let e = length-insert k v d ∙ if_false _ _ _ absent in omega (arith, e)
  ]

  pub length-erase_le : (k : String) (d : Dict V) → length (erase k d) ≤ length d
  length-erase_le k d = omega (arith, length-erase k d)

  -- `pop` of a key that is there
  pub length-erase_found :
      (k : String) (v : V) (d : Dict V) → lookup k d ≡ some v → suc (length (erase k d)) ≡ length d
  length-erase_found k v d e =
      let one = if_true {A = ℕ} (contains k d) 1 0 (ap is_some e) in
      omega (arith, length-erase k d, one)
