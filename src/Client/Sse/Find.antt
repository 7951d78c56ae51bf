-- ===== src/Client/Sse/Find.antt =====
-- endpoint_client/adapter_protocol.py: what the pattern finds in a well-formed stream.
use mathlib.Core.List.{append_assoc}
use endpoints.Base.{
  ℕ, ◌+◌, ◌-◌, true, false, ◌≡◌, refl, ◌∙◌, ap, some, List, [], ◌∷◌, ◌++◌, ◌==◌, length,
  take-append, arith,
}
use endpoints.Client.Sse.{
  newline, open_brace, close_brace, line_of, last_close, document, measured, match_here, found,
  find_all,
}

-- A server's event: a document `{b…}`, given by the bytes between its braces, or the end mark.
pub data Event : Type 0 where
  message : ℕ → List ℕ → Event
  finish : Event

-- `data: ` and the payload
abbrev pub payload : Event → List ℕ
payload (message b bs) = open_brace ∷ (b ∷ bs) ++ close_brace ∷ []
payload finish = 91 ∷ 68 ∷ 79 ∷ 78 ∷ 69 ∷ 93 ∷ []

abbrev pub line : Event → List ℕ
line e = 100 ∷ 97 ∷ 116 ∷ 97 ∷ 58 ∷ 32 ∷ payload e

abbrev pub documents_of : Event → List (List ℕ)
documents_of (message b bs) = payload (message b bs) ∷ []
documents_of finish = []

-- A document is on one line.
abbrev pub OneLine : List ℕ → Type 0
OneLine [] = Unit {0}
OneLine (b ∷ bs) = ((b == newline) ≡ false) × OneLine bs

abbrev pub IsEvent : Event → Type 0
IsEvent (message b bs) = OneLine (b ∷ bs)
IsEvent finish = Unit {0}

abbrev pub AreEvents : List Event → Type 0
AreEvents [] = Unit {0}
AreEvents (e ∷ es) = IsEvent e × AreEvents es

abbrev pub documents : List Event → List (List ℕ)
documents [] = []
documents (e ∷ es) = documents_of e ++ documents es

-- the bytes of a stream
abbrev pub print : List Event → List ℕ
print [] = []
print (e ∷ es) = line e ++ newline ∷ newline ∷ print es

-- the bytes that end a line, or the stream
abbrev pub Ends : List ℕ → Type 0
Ends [] = Unit {0}
Ends (b ∷ bs) = (b == newline) ≡ true

line_of-close :
    (bs x : List ℕ) → OneLine bs → Ends x → line_of (bs ++ close_brace ∷ x) ≡ bs ++ close_brace ∷ []
unfolding line_of
line_of-close [] [] h e = refl
line_of-close [] (y ∷ x) h e = rw e refl
line_of-close (b ∷ bs) x h e = rw (h.0) (ap (λ l. b ∷ l) (line_of-close bs x h.1 e))

last_close-append : (bs : List ℕ) → last_close (bs ++ close_brace ∷ []) ≡ some (length bs)
unfolding last_close
last_close-append [] = refl
last_close-append (b ∷ bs) = rw (last_close-append bs) refl

document_lem :
    (b : ℕ) (bs x : List ℕ)
    → OneLine (b ∷ bs)
    → Ends x
    → document (open_brace ∷ (b ∷ bs) ++ close_brace ∷ x) ≡ some (payload (message b bs))
unfolding document
document_lem b bs x h e =
    rw (line_of-close (b ∷ bs) x h e, last_close-append (b ∷ bs))
      (ap (λ l. some (open_brace ∷ l ++ close_brace ∷ []))
        (take-append (b ∷ bs) (close_brace ∷ [])))

find_all-skip : (p x : List ℕ) → find_all (length p) (p ++ x) ≡ find_all 0 x
unfolding find_all
find_all-skip [] x = refl
find_all-skip (b ∷ p) x = find_all-skip p x

match-line :
    (b : ℕ) (bs x : List ℕ)
    → IsEvent (message b bs)
    → Ends x
    → match_here (line (message b bs) ++ x)
      ≡ some (payload (message b bs), 6 + length (payload (message b bs)))
unfolding match_here
match-line b bs x h e =
    ap (λ l. measured 6 (document (open_brace ∷ b ∷ l))) (append_assoc bs (close_brace ∷ []) x)
    ∙ ap (measured 6) (document_lem b bs x h e)

pub find_all-line :
    (e : Event) (x : List ℕ)
    → IsEvent e
    → Ends x
    → find_all 0 (line e ++ x) ≡ documents_of e ++ find_all 0 x
unfolding find_all
find_all-line finish x h e = refl
find_all-line (message b bs) x h e =
    let p = payload (message b bs) in
    let rest : List ℕ = 97 ∷ 116 ∷ 97 ∷ 58 ∷ 32 ∷ p in
    let same : 6 + length p - 1 ≡ length rest = omega arith in
    ap (λ m. found m (λ n. find_all n (rest ++ x))) (match-line b bs x h e)
    ∙ ap (λ l. p ∷ l) (ap (λ n. find_all n (rest ++ x)) same ∙ find_all-skip rest x)

pub find_all-newlines : (x : List ℕ) → find_all 0 (newline ∷ newline ∷ x) ≡ find_all 0 x
unfolding find_all
find_all-newlines x = refl

pub find_all-print : (es : List Event) → AreEvents es → find_all 0 (print es) ≡ documents es
unfolding find_all
find_all-print [] h = refl
find_all-print (e ∷ es) h =
    find_all-line e (newline ∷ newline ∷ print es) h.0 refl
    ∙ ap (λ l. documents_of e ++ l) (find_all-newlines (print es) ∙ find_all-print es h.1)
