-- ===== src/Client/Sse/Cuts.antt =====
-- endpoint_client/worker.py: a delimiter in a well-formed stream stands between two of its events.
use mathlib.Core.Path.{subst}
use mathlib.Core.List.{append-nil, head-eq_of_cons-eq, tail-eq_of_cons-eq}
use endpoints.Base.{
  ℕ, suc, Bool, true, false, ◌≡◌, refl, sym, ◌∙◌, ap, Option, none, some, List, [], ◌∷◌, ◌++◌, ◌==◌,
  ◌⊎◌, inl, inr, take, drop, arith,
}
use endpoints.Client.Sse.{newline, close_brace, last_delimiter, is_delimiter, or_here, find_all}
use endpoints.Client.Sse.Find.{
  Event, message, finish, line, documents_of, documents, OneLine, IsEvent, AreEvents, print,
  find_all-line, find_all-newlines,
}

-- A delimiter that was found is there.
delimiter_here :
    (b : ℕ) (bs : List ℕ) → is_delimiter b bs ≡ true → b ∷ bs ≡ newline ∷ newline ∷ drop 2 (b ∷ bs)
delimiter_here b [] e = absurd (cc)
delimiter_here b (c ∷ bs) e = ground (arith, e)

found_at :
    (o : Option ℕ) (here : Bool) (i : ℕ)
    → or_here o here ≡ some i
    → ((j : ℕ) × (o ≡ some j) × (i ≡ suc j)) ⊎ ((here ≡ true) × (i ≡ 0))
found_at (some j) here i e = inl (j, refl, cc)
found_at none true i e = inr (refl, cc)
found_at none false i e = absurd (cc)

pub delimiter_at :
    (bs : List ℕ) (i : ℕ)
    → last_delimiter bs ≡ some i
    → bs ≡ take i bs ++ newline ∷ newline ∷ drop (suc (suc i)) bs
unfolding last_delimiter
delimiter_at [] i e = absurd (cc)
delimiter_at (b ∷ bs) i e = elim (found_at (last_delimiter bs) (is_delimiter b bs) i e) [
  | inl (j, o, k) ↦
      subst (λ n. b ∷ bs ≡ take n (b ∷ bs) ++ newline ∷ newline ∷ drop (suc (suc n)) (b ∷ bs))
        (sym k) (ap (λ l. b ∷ l) (delimiter_at bs j o))
  | inr (here, k) ↦
      subst (λ n. b ∷ bs ≡ take n (b ∷ bs) ++ newline ∷ newline ∷ drop (suc (suc n)) (b ∷ bs))
        (sym k) (delimiter_here b bs here)
]

OneLine-close : (bs : List ℕ) → OneLine bs → OneLine (bs ++ close_brace ∷ [])
OneLine-close [] h = (refl, tt)
OneLine-close (b ∷ bs) h = (h.0, OneLine-close bs h.1)

line-OneLine : (e : Event) → IsEvent e → OneLine (line e)
line-OneLine (message b bs) h =
    (refl, (refl, (refl, (refl, (refl, (refl, (refl, OneLine-close (b ∷ bs) h)))))))
line-OneLine finish h = (
  refl,
  (refl, (refl, (refl, (refl, (refl, (refl, (refl, (refl, (refl, (refl, (refl, tt))))))))))),
)

-- What a delimiter in a stream whose first line is `l` leaves before and after it.
abbrev Cut : List ℕ → List ℕ → List ℕ → List ℕ → Type 0
Cut seg r l tail =
    ((seg ≡ l) × (r ≡ tail))
    ⊎ ((seg' : List ℕ) × (seg ≡ l ++ newline ∷ newline ∷ seg')
        × (seg' ++ newline ∷ newline ∷ r ≡ tail))

abbrev Fresh : List ℕ → Type 0
Fresh [] = Unit {0}
Fresh (b ∷ bs) = (b == newline) ≡ false

print-Fresh : (es : List Event) → Fresh (print es)
print-Fresh [] = tt
print-Fresh (e ∷ es) = refl

split_line :
    (seg r l tail : List ℕ)
    → OneLine l
    → Fresh tail
    → seg ++ newline ∷ newline ∷ r ≡ l ++ newline ∷ newline ∷ tail
    → Cut seg r l tail
split_line [] r [] tail one fresh e = inl (refl, tail-eq_of_cons-eq (tail-eq_of_cons-eq e))
split_line (s ∷ []) r [] tail one fresh e =
    let k : true ≡ false = subst Fresh (sym (tail-eq_of_cons-eq (tail-eq_of_cons-eq e))) fresh in
    absurd (cc)
split_line (s ∷ t ∷ seg) r [] tail one fresh e = inr (
  seg,
  rw (head-eq_of_cons-eq e, head-eq_of_cons-eq (tail-eq_of_cons-eq e)) refl,
  tail-eq_of_cons-eq (tail-eq_of_cons-eq e),
)
split_line [] r (b ∷ l) tail one fresh e =
    let k = head-eq_of_cons-eq e in absurd (ground (arith, k, one.0))
split_line (s ∷ seg) r (b ∷ l) tail one fresh e =
    elim (split_line seg r l tail one.1 fresh (tail-eq_of_cons-eq e)) [
      | inl (p, q) ↦ inl (rw (head-eq_of_cons-eq e, p) refl, q)
      | inr (x, p, q) ↦ inr (x, rw (head-eq_of_cons-eq e, p) refl, q)
    ]

-- a stream without its last delimiter
abbrev pub trimmed : Event → List Event → List ℕ
trimmed e [] = line e
trimmed e (f ∷ es) = line e ++ newline ∷ newline ∷ trimmed f es

-- The events before and after a delimiter.
pub record Parts (es : List Event) (seg r : List ℕ) : Type 0 where
  pub head : Event
  pub more : List Event
  pub rest : List Event
  pub whole : es ≡ head ∷ more ++ rest
  pub before : seg ≡ trimmed head more
  pub after : r ≡ print rest

pub cut :
    (es : List Event) (seg r : List ℕ)
    → AreEvents es
    → seg ++ newline ∷ newline ∷ r ≡ print es
    → Parts es seg r
cut [] [] r h e = absurd (cc)
cut [] (s ∷ seg) r h e = absurd (cc)
cut (e ∷ es) seg r h eq =
    elim (split_line seg r (line e) (print es) (line-OneLine e h.0) (print-Fresh es) eq) [
      | inl (p, q) ↦ record { head = e; more = []; rest = es; whole = refl; before = p; after = q }
      | inr (x, p, q) ↦
          let c = cut es x r h.1 q in
          record {
            head = e;
            more = c.head ∷ c.more;
            rest = c.rest;
            whole = ap (λ l. e ∷ l) c.whole;
            before = p ∙ ap (λ l. line e ++ newline ∷ newline ∷ l) c.before;
            after = c.after;
          }
    ]

pub find_all-trimmed :
    (e : Event) (es : List Event)
    → AreEvents (e ∷ es)
    → find_all 0 (trimmed e es) ≡ documents (e ∷ es)
unfolding find_all
find_all-trimmed e [] h = ap (find_all 0) (sym (append-nil (line e))) ∙ find_all-line e [] h.0 tt
find_all-trimmed e (f ∷ es) h =
    find_all-line e (newline ∷ newline ∷ trimmed f es) h.0 refl
    ∙ ap (λ l. documents_of e ++ l) (find_all-newlines (trimmed f es) ∙ find_all-trimmed f es h.1)
