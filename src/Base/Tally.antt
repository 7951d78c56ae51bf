-- ===== src/Base/Tally.antt =====
-- How often a key, or a value, occurs in a dict.
use Prim.Native.String.{String}
use Prim.Native.Nat.{ℕ, ◌+◌, ◌<◌}
use mathlib.Core.Path.{◌≡◌, refl, sym, ap, ◌∙◌}
use mathlib.Core.Logic.{inl, inr}
use mathlib.Core.Bool.{Bool, true, false}
use mathlib.Core.Option.{some}
use mathlib.Core.List.{[], ◌∷◌}
use native.Mathlib.Omega.{arith}
use text.Mathlib.Text.{◌==◌ as str_eq}
use text.Mathlib.TextEquality.{eq_iff}
use text.Mathlib.TextPositions.{eq_refl}
use endpoints.Base.Tests.{is_some, Bool-cases, if_true, if_false}
use endpoints.Base.Dict.{Dict, lookup, insert, erase, contains}
use endpoints.Base.Lists.{length}

abbrev pub one_if : Bool → ℕ
one_if true = 1
one_if false = 0

abbrev pub values : String → Dict String → ℕ
values c [] = 0
values c ((i, v) ∷ d) = one_if (str_eq v c) + values c d

pub values-insert :
    (c k v : String) (d : Dict String)
    → contains k d ≡ false
    → values c (insert k v d) ≡ values c d + one_if (str_eq v c)
unfolding insert lookup
values-insert c k v [] h = omega arith
values-insert c k v ((i, w) ∷ d) h = ground (arith, values-insert c k v d)

pub values-erase :
    (c k v : String) (d : Dict String)
    → lookup k d ≡ some v
    → values c (erase k d) + one_if (str_eq v c) ≡ values c d
unfolding erase lookup
values-erase c k v [] h = absurd (cc)
values-erase c k v ((i, w) ∷ d) h = ground (arith, values-erase c k v d)

module _ {ℓ} {V : Type ℓ} where
  abbrev pub keys : String → Dict V → ℕ
  keys c [] = 0
  keys c ((i, v) ∷ d) = one_if (str_eq i c) + keys c d

  pub keys-insert :
      (c k : String) (v : V) (d : Dict V)
      → contains k d ≡ false
      → keys c (insert k v d) ≡ keys c d + one_if (str_eq k c)
  unfolding insert lookup
  keys-insert c k v [] h = omega arith
  keys-insert c k v ((i, w) ∷ d) h = ground (arith, keys-insert c k v d)

  pub keys-insert_there :
      (c k : String) (v : V) (d : Dict V) → contains k d ≡ true → keys c (insert k v d) ≡ keys c d
  unfolding insert lookup
  keys-insert_there c k v [] h = absurd (cc)
  keys-insert_there c k v ((i, w) ∷ d) h = ground (arith, eq_iff i k, keys-insert_there c k v d)

  pub keys-erase :
      (c k : String) (d : Dict V)
      → contains k d ≡ true
      → keys c (erase k d) + one_if (str_eq k c) ≡ keys c d
  unfolding erase lookup
  keys-erase c k [] h = absurd (cc)
  keys-erase c k ((i, w) ∷ d) h = ground (arith, eq_iff i k, keys-erase c k d)

  pub erase_absent : (k : String) (d : Dict V) → contains k d ≡ false → erase k d ≡ d
  unfolding erase lookup
  erase_absent k [] h = refl
  erase_absent k ((i, w) ∷ d) h = elim (Bool-cases (str_eq i k)) [
    | inl same ↦
        let t : true ≡ false =
          sym (ap is_some (if_true (str_eq i k) (some w) (lookup k d) same)) ∙ h in
        absurd (cc)
    | inr other ↦
        if_false (str_eq i k) d ((i, w) ∷ erase k d) other
        ∙ ap (λ e. (i, w) ∷ e)
            (erase_absent k d
              (sym (ap is_some (if_false (str_eq i k) (some w) (lookup k d) other)) ∙ h))
  ]

  pub keys-found : (k : String) (v : V) (d : Dict V) → lookup k d ≡ some v → 0 < keys k d
  unfolding lookup
  keys-found k v [] h = absurd (cc)
  keys-found k v ((i, w) ∷ d) h = ground (arith, keys-found k v d)

  pub found-keys : (k : String) (d : Dict V) → 0 < keys k d → contains k d ≡ true
  unfolding lookup
  found-keys k [] h = elim h [ ]
  found-keys k ((i, w) ∷ d) h = ground (arith, found-keys k d)

  pub lookup-erase :
      (j k : String) (d : Dict V) → str_eq k j ≡ false → lookup j (erase k d) ≡ lookup j d
  unfolding lookup erase
  lookup-erase j k [] h = refl
  lookup-erase j k ((i, w) ∷ d) h =
      ground (arith, eq_iff i k, eq_iff i j, eq_iff k j, lookup-erase j k d)

  pub insert-pos : (k : String) (v : V) (d : Dict V) → 0 < length (insert k v d)
  unfolding insert
  insert-pos k v [] = omega arith
  insert-pos k v ((i, w) ∷ d) = ground (arith, insert-pos k v d)

pub same_text : (j k : String) → str_eq j k ≡ true → j ≡ k
same_text j k h = ground (arith, eq_iff j k)

pub values-found : (k v : String) (d : Dict String) → lookup k d ≡ some v → 0 < values v d
values-found k v d e = let one = ap one_if (eq_refl v) in omega (arith, values-erase v k v d e, one)

module _ {ℓ} {V : Type ℓ} where
  pub absent_key : (k : String) (d : Dict V) → keys k d ≡ 0 → contains k d ≡ false
  unfolding lookup
  absent_key k [] h = refl
  absent_key k ((i, w) ∷ d) h = ground (arith, absent_key k d)

  pub erase_nil : (k : String) → erase {V = V} k [] ≡ []
  unfolding erase
  erase_nil k = refl
