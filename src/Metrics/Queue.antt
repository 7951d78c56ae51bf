-- ===== src/Metrics/Queue.antt =====
-- metrics_aggregator/token_metrics.py: `TokenBatchQueue`, and tokenization.py. The recorder that a
-- trigger enqueues is a closure in Python; here it is a value, run by `Sinks`.
pub mod Flush
use endpoints.Base.{
  ℕ, zero, suc, ◌+◌, ◌-◌, Bool, true, false, Option, none, some, List, [], ◌∷◌, ◌++◌, String, ltb,
  ◌==◌, if◌then◌else◌, length, map,
}
use endpoints.Core.Output.{Json, ToolCall}
use endpoints.Core.Output.Views.{MessageParts}

pub data TokenizationInput : Type 0 where
  token_ids : List ℕ → TokenizationInput
  text : String → TokenizationInput
  message : MessageParts → TokenizationInput
  prompt :
      List Json → Option (List Json) → Option Json → Option String → Option Json → TokenizationInput

-- `type(queued[0])`
pub data Kind : Type 0 where
  ids_kind text_kind message_kind prompt_kind : Kind

abbrev pub kind : TokenizationInput → Kind
kind (token_ids _) = ids_kind
kind (text _) = text_kind
kind (message _) = message_kind
kind (prompt _ _ _ _ _) = prompt_kind

-- `_LIVE_FLUSH_MAX_ITEMS`
abbrev pub live_flush_max_items : ℕ
live_flush_max_items = 1024

-- What the tokenizer does with a batch: one outcome for each input (a count, or an error), or it
-- raises, is cancelled, or the drain's time runs out while it works.
pub data Outcome : Type 0 where
  counted : ℕ → Outcome
  errored : Outcome

pub data Reply : Type 0 where
  outcomes : List Outcome → Reply
  raised : Reply
  cancelled : Reply

-- `selected_by_type`
pub record Selected : Type 0 where
  pub ids : ℕ
  pub texts : ℕ
  pub messages : ℕ
  pub prompts : ℕ

abbrev pub none_selected : Selected
none_selected = record { ids = 0; texts = 0; messages = 0; prompts = 0 }

abbrev pub of_kind : Kind → Selected → ℕ
of_kind ids_kind s = s.ids
of_kind text_kind s = s.texts
of_kind message_kind s = s.messages
of_kind prompt_kind s = s.prompts

abbrev pub one_more : Kind → Selected → Selected
one_more ids_kind s = record s { ids = s.ids + 1 }
one_more text_kind s = record s { texts = s.texts + 1 }
one_more message_kind s = record s { messages = s.messages + 1 }
one_more prompt_kind s = record s { prompts = s.prompts + 1 }

module _ (R : Type 0) where
  abbrev pub Item : Type 0
  Item = TokenizationInput × R

  -- `_inflight` is the number `pending`
  pub record TokenQueue : Type 0 where
    pub items : List Item
    pub pending : ℕ

  -- How a flush ends: the queue after it, the recorders run with their counts, and whether it raises.
  pub record Flushed : Type 0 where
    pub queue : TokenQueue
    pub recorded : List (R × ℕ)
    pub failed : Bool

abbrev pub is_nil {ℓ} : {A : Type ℓ} → List A → Bool
is_nil [] = true
is_nil (_ ∷ _) = false

module _ {R : Type 0} where
  unfoldable pub enqueue : TokenizationInput → R → TokenQueue R → TokenQueue R
  enqueue i r q = record { items = q.items ++ (i, r) ∷ []; pending = q.pending + 1 }

  -- the loop that fills `selected` and `remaining`, as (selected, remaining)
  unfoldable pub select_live : Selected → List (Item R) → List (Item R) × List (Item R)
  select_live s [] = ([], [])
  select_live s (x ∷ xs) =
      let fits = ltb (of_kind (kind x.0) s) live_flush_max_items in
      let (chosen, left) = select_live (if fits then one_more (kind x.0) s else s) xs in
      if fits then (x ∷ chosen, left) else (chosen, x ∷ left)

  -- the loop over `zip(items, outcomes)`: the recorders to run, in order, and the items to retry
  unfoldable pub settle : List (Item R) → List Outcome → List (R × ℕ) × List (Item R)
  settle [] _ = ([], [])
  settle (_ ∷ _) [] = ([], [])
  settle (x ∷ xs) (o ∷ os) =
      let (done, retry) = settle xs os in
      elim o [ counted n ↦ ((x.1, n) ∷ done, retry) | errored ↦ (done, x ∷ retry) ]

  -- what is put back in front of the buffer: `self._items[:0] = items`, on the live lane only
  abbrev pub put_back : Bool → List (Item R) → List (Item R) → List (Item R)
  put_back live items left = if live then items ++ left else left

  pub after_reply : Bool → List (Item R) → List (Item R) → ℕ → Reply → Flushed R
  unfolding settle
  after_reply live items left pending raised = record {
    queue = record { items = put_back live items left; pending = pending };
    recorded = [];
    failed = true;
  }
  after_reply live items left pending cancelled = record {
    queue = record { items = put_back live items left; pending = pending };
    recorded = [];
    failed = true;
  }
  after_reply live items left pending (outcomes os) =
      if length os == length items
      then (let (done, retry) = settle items os in
          record {
            queue = record { items = put_back live retry left; pending = pending - length done };
            recorded = done;
            failed = if is_nil retry then false else true;
          })
      else record {
        queue = record { items = put_back live items left; pending = pending };
        recorded = [];
        failed = true;
      }

  -- `_flush(live)`; `reply` is what the tokenizer does with the inputs that it is given.
  unfoldable pub flush : (List TokenizationInput → Reply) → Bool → TokenQueue R → Flushed R
  unfolding select_live after_reply
  flush reply live q =
      let (items, left) = if live then select_live none_selected q.items else (q.items, []) in
      if is_nil q.items
      then record { queue = q; recorded = []; failed = false }
      else after_reply live items left q.pending (reply (map (λ x. x.0) items))

  -- `flush_remaining`: nothing to do, or one drain of the whole buffer, whose failure is swallowed.
  -- The result's `pending` is the number that it returns.
  unfoldable pub flush_remaining : (List TokenizationInput → Reply) → TokenQueue R → Flushed R
  unfolding flush
  flush_remaining reply q =
      if q.pending == 0
      then record { queue = q; recorded = []; failed = false }
      else record (flush reply false q) { failed = false }
