-- ===== src/Examples/Client.antt =====
-- endpoint_client/ and openai/accumulator.py at concrete streams and connections.
use endpoints.Base.{
  ℕ, ◌+◌, ◌-◌, ◌≤◌, true, false, ◌≡◌, refl, Option, none, some, List, [], ◌∷◌, String,
}
use endpoints.Core.Output.{merge_tool_calls, join}
use endpoints.Core.Output.Views.{as_message_parts}
use endpoints.Client.Accumulator.{
  SseChoice, new_accumulator, get_final_output, add_all, calls_of, add_delta,
}
use endpoints.Client.Accumulator.Final.{
  contents, reasonings, call_parts, joined, get_final_output-parts,
}
use endpoints.Client.Accumulator.Flags.{
  FirstOnly, add_all-FirstOnly, texts_of, arrivals, add_all-arrivals,
}
use endpoints.Client.Sse.{Decoded, decoded, iter_sse_lines, decode_all}
use endpoints.Client.Sse.Find.{Event, message, finish, print, documents}
use endpoints.Client.Sse.Reads.{iter_sse_lines-print}
use endpoints.Client.Pool.{
  is_stale, Pool, new_pool, Step, start, connect, enter, give_back, run_steps, total_count,
  idle_count, in_use_count, acquire, is_alive, elem,
}
use endpoints.Client.Pool.Bounds.{Limits, Bounded}
use endpoints.Client.Pool.Steps.{run_steps-limits, new_pool-IsSound, steps-IsSound}
use endpoints.Client.Pool.Handout.{acquire-exclusive}
use endpoints.Examples.Inputs.{tool_call}

-- a reasoning text, two content texts, and a delta with nothing but a tool call
abbrev says : Option String → Option String → SseChoice
says content reasoning = record {
  delta = some (record {
    content = content;
    reasoning_content = none;
    reasoning = reasoning;
    tool_calls = none;
  });
  finish_reason = none;
}

abbrev calls : SseChoice
calls = record {
  delta = some (record {
    content = none;
    reasoning_content = none;
    reasoning = none;
    tool_calls = some (tool_call ∷ []);
  });
  finish_reason = some "tool_calls";
}

abbrev pub choices : List SseChoice
choices = says none (some "hm") ∷ says (some "Hel") none ∷ says (some "lo") none ∷ calls ∷ []

get_final_output-parts_example :
    let r = get_final_output (add_all choices (new_accumulator "a" false)).1 in
    let p = as_message_parts r.response_output in
    (p.content ≡ join (contents choices))
    × (p.reasoning ≡ joined (reasonings choices))
    × (p.tool_calls ≡ merge_tool_calls (calls_of (call_parts choices)))
get_final_output-parts_example = get_final_output-parts choices "a" false

two_texts : contents choices ≡ "Hel" ∷ "lo" ∷ []
two_texts = refl

add_all-FirstOnly_example :
    let r = add_all choices (new_accumulator "a" true) in FirstOnly r.0 (get_final_output r.1)
add_all-FirstOnly_example = add_all-FirstOnly choices "a" true

add_all-arrivals_example :
    join (texts_of (add_all choices (new_accumulator "a" true)).0) ≡ join (arrivals choices)
add_all-arrivals_example = add_all-arrivals choices "a"

-- three chunks, of which the first is the reasoning; the final tool call sends none
streamed_texts : texts_of (add_all choices (new_accumulator "a" true)).0 ≡ "hm" ∷ "Hel" ∷ "lo" ∷ []
unfolding add_all add_delta
streamed_texts = refl

-- two documents and the end of a stream
abbrev pub events : List Event
events = message 97 [] ∷ message 98 (99 ∷ []) ∷ finish ∷ []

abbrev pub whole_document : List ℕ → Decoded (List ℕ)
whole_document doc = decoded doc

-- the stream in two reads, cut within the first document, and the second read in two chunks
abbrev pub reads : List (List (List ℕ))
reads =
    ((100 ∷ 97 ∷ 116 ∷ 97 ∷ 58 ∷ 32 ∷ 123 ∷ []) ∷ [])
    ∷ ((97 ∷ 125 ∷ 10 ∷ []) ∷ (10 ∷ print (message 98 (99 ∷ []) ∷ finish ∷ [])) ∷ [])
    ∷ []

iter_sse_lines-print_example :
    iter_sse_lines whole_document reads [] ≡ decode_all whole_document (documents events)
iter_sse_lines-print_example =
    iter_sse_lines-print whole_document reads events ((refl, tt), ((refl, (refl, tt)), (tt, tt)))
      (tt, (tt, tt)) refl

-- one connection is opened, used and given back
abbrev limits : Limits
limits = record { max = some 2; permits = 1 }

abbrev opened : List Step
opened = start 0 ∷ enter 1 ∷ connect 2 ∷ give_back 0 5 ∷ []

abbrev pub opened_pool : Pool
opened_pool = run_steps opened (new_pool limits.max 100 limits.permits)

run_steps-limits_example :
    Bounded limits.max (total_count opened_pool + opened_pool.creating)
    × (opened_pool.connecting ≤ limits.permits)
    × (idle_count opened_pool + in_use_count opened_pool ≡ total_count opened_pool)
run_steps-limits_example = run_steps-limits limits 100 opened

opened_counts : total_count opened_pool ≡ 1
unfolding run_steps
opened_counts = refl

acquire-exclusive_example :
    let q = (acquire 9 opened_pool).1 in
    (elem 0 opened_pool.idle_stack ≡ true)
    × ((opened_pool.conn 0).in_use ≡ false)
    × (is_alive (opened_pool.conn 0) ≡ true)
    × (9 - (opened_pool.conn 0).last_used ≤ opened_pool.max_idle_time)
    × (is_stale 9 (opened_pool.conn 0) ≡ false)
    × ((q.conn 0).in_use ≡ true)
    × (elem 0 q.idle_stack ≡ false)
unfolding run_steps acquire
acquire-exclusive_example =
    acquire-exclusive limits opened_pool 9 0
      (steps-IsSound limits opened (new_pool limits.max 100 limits.permits)
        (new_pool-IsSound limits 100))
      refl
