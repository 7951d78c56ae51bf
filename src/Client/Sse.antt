-- ===== src/Client/Sse.antt =====
-- endpoint_client/worker.py, `_iter_sse_lines`, and endpoint_client/adapter_protocol.py,
-- `parse_sse_chunk`: a response body becomes decoded events. Bytes are numbers.
pub mod Find
pub mod Cuts
pub mod Reads
use endpoints.Base.{
  ℕ, zero, suc, ◌+◌, ◌-◌, Bool, true, false, ◌&&◌, ◌||◌, Option, none, some, List, [], ◌∷◌, ◌++◌,
  ◌==◌, if◌then◌else◌, length, take, drop,
}

abbrev pub newline : ℕ
newline = 10

abbrev pub open_brace : ℕ
open_brace = 123

abbrev pub close_brace : ℕ
close_brace = 125

-- `\s` of a pattern on bytes
abbrev pub is_space : ℕ → Bool
is_space b = b == 32 || b == 9 || b == 10 || b == 13 || b == 12 || b == 11

-- `buffer.rfind(b"\n\n")`; `none` is -1
abbrev pub or_here : Option ℕ → Bool → Option ℕ
or_here (some i) here = some (suc i)
or_here none true = some 0
or_here none false = none

abbrev pub is_delimiter : ℕ → List ℕ → Bool
is_delimiter b [] = false
is_delimiter b (c ∷ _) = b == newline && c == newline

unfoldable pub last_delimiter : List ℕ → Option ℕ
last_delimiter [] = none
last_delimiter (b ∷ bs) = or_here (last_delimiter bs) (is_delimiter b bs)

-- The parts of `SSE_DATA_PATTERN`, `data:\s*(\{[^\n]+\})`.
unfoldable pub strip : List ℕ → List ℕ → Option (List ℕ)
strip [] bs = some bs
strip (p ∷ ps) [] = none
strip (p ∷ ps) (b ∷ bs) = if p == b then strip ps bs else none

abbrev pub data_field : List ℕ
data_field = 100 ∷ 97 ∷ 116 ∷ 97 ∷ 58 ∷ []

unfoldable pub count_spaces : List ℕ → ℕ
count_spaces [] = 0
count_spaces (b ∷ bs) = if is_space b then suc (count_spaces bs) else 0

unfoldable pub line_of : List ℕ → List ℕ
line_of [] = []
line_of (b ∷ bs) = if b == newline then [] else b ∷ line_of bs

-- the index of the last `}`
unfoldable pub last_close : List ℕ → Option ℕ
last_close [] = none
last_close (b ∷ bs) = or_here (last_close bs) (b == close_brace)

-- `\{[^\n]+\}`: the greedy run ends at the line's last brace, and is not empty
abbrev pub closed_at : List ℕ → Option ℕ → Option (List ℕ)
closed_at line none = none
closed_at line (some zero) = none
closed_at line (some (suc k)) = some (open_brace ∷ take (suc k) line ++ close_brace ∷ [])

unfoldable pub document : List ℕ → Option (List ℕ)
unfolding line_of last_close
document [] = none
document (b ∷ bs) =
    if b == open_brace then closed_at (line_of bs) (last_close (line_of bs)) else none

-- The match at the start of the bytes: its group, and its length.
abbrev pub measured : ℕ → Option (List ℕ) → Option (List ℕ × ℕ)
measured n none = none
measured n (some doc) = some (doc, n + length doc)

unfoldable pub after_field : Option (List ℕ) → Option (List ℕ × ℕ)
unfolding count_spaces document
after_field none = none
after_field (some bs) = measured (5 + count_spaces bs) (document (drop (count_spaces bs) bs))

unfoldable pub match_here : List ℕ → Option (List ℕ × ℕ)
unfolding strip after_field
match_here bs = after_field (strip data_field bs)

abbrev pub found : Option (List ℕ × ℕ) → (ℕ → List (List ℕ)) → List (List ℕ)
found none rest = rest 0
found (some (doc, n)) rest = doc ∷ rest (n - 1)

-- `findall`: the groups of the matches from left to right, after `skip` bytes of the last match
unfoldable pub find_all : ℕ → List ℕ → List (List ℕ)
unfolding match_here
find_all skip [] = []
find_all (suc skip) (b ∷ bs) = find_all skip bs
find_all zero (b ∷ bs) = found (match_here (b ∷ bs)) (λ n. find_all n bs)

-- `b"".join`
abbrev pub concat : List (List ℕ) → List ℕ
concat [] = []
concat (c ∷ cs) = c ++ concat cs

-- what `decode_sse_message` does with a document: None, an object, or an exception of the decoder
pub data Decoded (C : Type 0) : Type 0 where
  skipped malformed : Decoded C
  decoded : C → Decoded C

module _ {C : Type 0} (decode : List ℕ → Decoded C) where
  abbrev pub collect : Decoded C → List C → List C
  collect skipped rest = rest
  collect malformed rest = []
  collect (decoded c) rest = c ∷ rest

  unfoldable pub decode_all : List (List ℕ) → List C
  decode_all [] = []
  decode_all (doc ∷ docs) = collect (decode doc) (decode_all docs)

  -- `parse_sse_chunk`
  unfoldable pub parse_sse_chunk : List ℕ → ℕ → List C
  unfolding decode_all find_all
  parse_sse_chunk buffer end_pos = decode_all (find_all 0 (take end_pos buffer))

  -- One round of the loop: the batch that is yielded, if a delimiter was found, and the bytes kept.
  abbrev pub next_batch : Option ℕ → List ℕ → (List ℕ → List C) → List C
  next_batch none buffer rest = rest buffer
  next_batch (some i) buffer rest = parse_sse_chunk buffer i ++ rest (drop (i + 2) buffer)

  -- The objects that are yielded, batch after batch. `reads` are the chunk lists of `iter_body`.
  unfoldable pub iter_sse_lines : List (List (List ℕ)) → List ℕ → List C
  unfolding parse_sse_chunk last_delimiter
  iter_sse_lines [] incomplete = parse_sse_chunk incomplete (length incomplete)
  iter_sse_lines (chunk_list ∷ reads) incomplete =
      let buffer = incomplete ++ concat chunk_list in
      next_batch (last_delimiter buffer) buffer (λ bs. iter_sse_lines reads bs)
