-- ===== src/Client/Generate.antt =====
-- sglang/accumulator.py and sglang/types.py: a stream of /generate, whose events carry the whole text so
-- far. Texts are lists of characters, by their numbers.
pub mod Deltas
use endpoints.Base.{
  ℕ, ◌+◌, Bool, true, false, ◌&&◌, ◌||◌, not, Option, none, some, List, [], ◌∷◌, ◌++◌, String, ◌==◌,
  ltb, if◌then◌else◌, length, drop,
}

abbrev pub Text : Type 0
Text = List ℕ

pub record SglangDelta : Type 0 where
  pub text : Text
  pub token_delta : List ℕ
  pub total_completion_tokens : ℕ
  pub has_retractions : Bool

-- `StreamChunk` with its metadata
pub record GeneratedChunk : Type 0 where
  pub id : String
  pub response_chunk : Text
  pub first_chunk : Bool
  pub retraction_occurred : Bool
  pub n_tokens : ℕ

-- the final `QueryResult` with its metadata
pub record GeneratedResult : Type 0 where
  pub id : String
  pub output : Text
  pub first_chunk : Bool
  pub retraction_occurred : Bool
  pub n_tokens : ℕ
  pub token_ids : List ℕ

pub record SglangAccumulator : Type 0 where
  pub text : Text
  pub token_ids : List ℕ
  pub total_tokens : ℕ
  pub retraction_occurred : Bool
  pub first_chunk_sent : Bool
  pub query_id : String
  pub stream_all_chunks : Bool

abbrev pub new_sglang : String → Bool → SglangAccumulator
new_sglang query_id stream_all_chunks = record {
  text = [];
  token_ids = [];
  total_tokens = 0;
  retraction_occurred = false;
  first_chunk_sent = false;
  query_id = query_id;
  stream_all_chunks = stream_all_chunks;
}

abbrev pub has_text : Text → Bool
has_text [] = false
has_text (_ ∷ _) = true

-- `content_diff`
abbrev pub text_diff : Text → Text → Text
text_diff old new = if ltb (length old) (length new) then drop (length old) new else []

-- the fields that every counted delta sets
abbrev pub absorbed : SglangDelta → SglangAccumulator → SglangAccumulator
absorbed d a = record a {
  text = d.text;
  token_ids = a.token_ids ++ d.token_delta;
  total_tokens = d.total_completion_tokens;
  retraction_occurred = if d.has_retractions then true else a.retraction_occurred;
}

abbrev pub chunk_of : Text → SglangDelta → SglangAccumulator → GeneratedChunk
chunk_of diff d a = record {
  id = a.query_id;
  response_chunk = diff;
  first_chunk = not a.first_chunk_sent;
  retraction_occurred = d.has_retractions;
  n_tokens = length d.token_delta;
}

-- `add_chunk`, of a delta
unfoldable pub add_generated :
    SglangDelta → SglangAccumulator → Option GeneratedChunk × SglangAccumulator
add_generated d a =
    if d.total_completion_tokens == a.total_tokens
    then (none, a)
    else let diff = text_diff a.text d.text in
      if has_text diff && (a.stream_all_chunks || not a.first_chunk_sent)
      then (some (chunk_of diff d a), record (absorbed d a) { first_chunk_sent = true })
      else (none, absorbed d a)

-- `get_final_output`
unfoldable pub get_generated : SglangAccumulator → GeneratedResult
get_generated a = record {
  id = a.query_id;
  output = a.text;
  first_chunk = not a.first_chunk_sent;
  retraction_occurred = a.retraction_occurred;
  n_tokens = a.total_tokens;
  token_ids = a.token_ids;
}

abbrev pub sent_chunk : Option GeneratedChunk → List GeneratedChunk
sent_chunk none = []
sent_chunk (some c) = c ∷ []

-- the deltas of a stream: the chunks that are sent, and the end
unfoldable pub add_deltas :
    List SglangDelta → SglangAccumulator → List GeneratedChunk × SglangAccumulator
unfolding add_generated
add_deltas [] a = ([], a)
add_deltas (d ∷ ds) a =
    let (c, b) = add_generated d a in let (more, e) = add_deltas ds b in (sent_chunk c ++ more, e)
