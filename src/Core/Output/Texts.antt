-- ===== src/Core/Output/Texts.antt =====
-- Laws of joined texts.
use Prim.Native.String.{◌++◌ as str_append}
use Prim.Native.String.append
use endpoints.Base.{◌≡◌, ap, sym, ◌∙◌, List, [], ◌∷◌, ◌++◌, String}
use endpoints.Core.Output.{join}

pub append_text_nil : (s : String) → str_append s "" ≡ s
append_text_nil String.[] = rw append.nil
append_text_nil (String.◌∷◌ c s) = rw append.cons (ap (String.◌∷◌ c) (append_text_nil s))

pub append_text_assoc :
    (s t u : String) → str_append (str_append s t) u ≡ str_append s (str_append t u)
append_text_assoc String.[] t u = simp append.nil
append_text_assoc (String.◌∷◌ c s) t u =
    simp append.cons (ap (String.◌∷◌ c) (append_text_assoc s t u))

pub join-append : (xs ys : List String) → join (xs ++ ys) ≡ str_append (join xs) (join ys)
unfolding join
join-append [] ys = sym (append.nil (join ys))
join-append (x ∷ xs) ys =
    ap (str_append x) (join-append xs ys) ∙ sym (append_text_assoc x (join xs) (join ys))

pub join-single : (s : String) → join (s ∷ []) ≡ s
unfolding join
join-single s = append_text_nil s
