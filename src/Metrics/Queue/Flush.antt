-- ===== src/Metrics/Queue/Flush.antt =====
-- token_metrics.py: a flush neither loses nor repeats a recorder, and how the pending count moves.
use mathlib.Core.List.{Perm, perm_middle, append-nil, append_assoc}
use mathlib.Core.List.Perm
use endpoints.Base.{
  ℕ, ◌+◌, ◌-◌, true, false, ◌≡◌, refl, ap, ◌∙◌, List, [], ◌∷◌, ◌++◌, arith, length, map, ltb,
  if◌then◌else◌, length-append, eq→==, suc_is_not_zero, Bool-cases, inl, inr, length-map, ◌==◌,
}
use endpoints.Metrics.Queue.{
  TokenizationInput, Outcome, counted, errored, Reply, outcomes, raised, cancelled, Item,
  TokenQueue, Flushed, Selected, none_selected, of_kind, one_more, kind, live_flush_max_items,
  select_live, settle, put_back, after_reply, flush, flush_remaining, is_nil,
}

module _ {R : Type 0} where
  abbrev pub recorders : List (Item R) → List R
  recorders [] = []
  recorders (x ∷ xs) = x.1 ∷ recorders xs

  abbrev pub ran : List (R × ℕ) → List R
  ran [] = []
  ran (x ∷ xs) = x.0 ∷ ran xs

  -- The buffer holds what is pending.
  abbrev pub IsTight : TokenQueue R → Type 0
  IsTight q = q.pending ≡ length q.items

  recorders-append : (xs ys : List (Item R)) → recorders (xs ++ ys) ≡ recorders xs ++ recorders ys
  recorders-append [] ys = refl
  recorders-append (x ∷ xs) ys = ap (◌∷◌ x.1) (recorders-append xs ys)

  select_live-perm :
      (s : Selected) (xs : List (Item R))
      → let (chosen, left) = select_live s xs in
        Perm (recorders xs) (recorders chosen ++ recorders left)
  unfolding select_live
  select_live-perm s [] = Perm.refl []
  select_live-perm s (x ∷ xs) =
      elim (Bool-cases (ltb (of_kind (kind x.0) s) live_flush_max_items)) [
        | inl fits ↦ rw fits (Perm.cons x.1 (select_live-perm (one_more (kind x.0) s) xs))
        | inr full ↦ rw full (
            Perm.trans (Perm.cons x.1 (select_live-perm s xs)) (
              Perm.symm
                (perm_middle (recorders (select_live s xs).0) (recorders (select_live s xs).1))))
      ]

  settle-perm :
      (xs : List (Item R)) (os : List Outcome)
      → length os ≡ length xs
      → let (done, retry) = settle xs os in Perm (recorders xs) (ran done ++ recorders retry)
  unfolding settle
  settle-perm [] os e = Perm.refl []
  settle-perm (x ∷ xs) [] e = absurd (omega arith)
  settle-perm (x ∷ xs) (counted n ∷ os) e = Perm.cons x.1 (settle-perm xs os (omega arith))
  settle-perm (x ∷ xs) (errored ∷ os) e =
      Perm.trans (Perm.cons x.1 (settle-perm xs os (omega arith)))
        (Perm.symm (perm_middle (ran (settle xs os).0) (recorders (settle xs os).1)))

  select_live-length :
      (s : Selected) (xs : List (Item R))
      → let (chosen, left) = select_live s xs in length chosen + length left ≡ length xs
  unfolding select_live
  select_live-length s [] = omega arith
  select_live-length s (x ∷ xs) =
      elim (Bool-cases (ltb (of_kind (kind x.0) s) live_flush_max_items)) [
        | inl fits ↦ rw fits (omega (arith, select_live-length (one_more (kind x.0) s) xs))
        | inr full ↦ rw full (omega (arith, select_live-length s xs))
      ]

  settle-length :
      (xs : List (Item R)) (os : List Outcome)
      → length os ≡ length xs
      → let (done, retry) = settle xs os in length done + length retry ≡ length xs
  unfolding settle
  settle-length [] os e = omega arith
  settle-length (x ∷ xs) [] e = absurd (omega arith)
  settle-length (x ∷ xs) (counted n ∷ os) e = omega (arith, settle-length xs os (omega arith))
  settle-length (x ∷ xs) (errored ∷ os) e = omega (arith, settle-length xs os (omega arith))

  -- what a flush of the live lane leaves, given the items taken and the items left in the buffer
  abbrev Keeps : List (Item R) → List (Item R) → ℕ → Flushed R → Type 0
  Keeps items left pending f =
      Perm (recorders items ++ recorders left) (ran f.recorded ++ recorders f.queue.items)
      × (length f.recorded + length f.queue.items ≡ length items + length left)
      × (f.queue.pending ≡ pending - length f.recorded)

  kept-Keeps :
      (items left : List (Item R)) (pending : ℕ)
      → Keeps items left pending (record {
        queue = record { items = items ++ left; pending = pending };
        recorded = [];
        failed = true;
      })
  kept-Keeps items left pending = (
    rw (recorders-append items left) (Perm.refl _),
    omega (arith, length-append items left),
    omega arith,
  )

  settled-Keeps :
      (items left : List (Item R)) (pending : ℕ) (os : List Outcome)
      → length os ≡ length items
      → Keeps items left pending (
          let (done, retry) = settle items os in
          record {
            queue = record { items = put_back true retry left; pending = pending - length done };
            recorded = done;
            failed = if is_nil retry then false else true;
          })
  settled-Keeps items left pending os e =
      let (done, retry) = settle items os in
      (
        rw (recorders-append retry left, ← append_assoc)
            (Perm.append_right (recorders left) (settle-perm items os e)),
        rw (length-append retry left) (omega (arith, settle-length items os e)),
        refl,
      )

  after_reply-Keeps :
      (items left : List (Item R)) (pending : ℕ) (reply : Reply)
      → Keeps items left pending (after_reply true items left pending reply)
  unfolding after_reply
  after_reply-Keeps items left pending raised = kept-Keeps items left pending
  after_reply-Keeps items left pending cancelled = kept-Keeps items left pending
  after_reply-Keeps items left pending (outcomes os) =
      elim (Bool-cases (length os == length items)) [
        | inl same ↦ rw same (settled-Keeps items left pending os (ground arith))
        | inr other ↦ rw other (kept-Keeps items left pending)
      ]

  flush-Keeps :
      (reply : List TokenizationInput → Reply) (xs : List (Item R)) (pending : ℕ)
      → Keeps xs [] pending (flush reply true (record { items = xs; pending = pending }))
  unfolding flush
  flush-Keeps reply [] pending = (Perm.refl [], omega arith, omega arith)
  flush-Keeps reply (x ∷ xs) pending =
      let (chosen, left) = select_live none_selected (x ∷ xs) in
      let inputs = map (λ (y : Item R). y.0) chosen in
      let (p, n, k) = after_reply-Keeps chosen left pending (reply inputs) in
      (
        rw append-nil (Perm.trans (select_live-perm none_selected (x ∷ xs)) p),
        omega (arith, n, select_live-length none_selected (x ∷ xs)),
        k,
      )

  -- A live flush, whatever the tokenizer does: the recorders that ran together with those still buffered are, as a multiset, the recorders that were buffered; where the pending count was the number of buffered items, it still is, and it fell by the number of recorders that ran.
  pub live_flush-exactly_once :
      (reply : List TokenizationInput → Reply) (q : TokenQueue R)
      → IsTight q
      → let f = flush reply true q in
        Perm (recorders q.items) (ran f.recorded ++ recorders f.queue.items)
        × IsTight f.queue
        × (f.queue.pending + length f.recorded ≡ q.pending)
  live_flush-exactly_once reply q tight =
      let (p, n, k) = flush-Keeps reply q.items q.pending in
      (rw append-nil at p, omega (arith, n, k), omega (arith, n, k))

  settle_all :
      (xs : List (Item R)) (ns : List ℕ)
      → length ns ≡ length xs
      → let (done, retry) = settle xs (map counted ns) in
        (ran done ≡ recorders xs) × (map (λ x. x.1) done ≡ ns) × (retry ≡ [])
  unfolding settle
  settle_all [] [] e = (refl, refl, refl)
  settle_all [] (n ∷ ns) e = absurd (omega arith)
  settle_all (x ∷ xs) [] e = absurd (omega arith)
  settle_all (x ∷ xs) (n ∷ ns) e =
      let (a, b, c) = settle_all xs ns (omega arith) in (ap (◌∷◌ x.1) a, ap (◌∷◌ n) b, c)

  drained :
      (reply : List TokenizationInput → Reply) (xs : List (Item R)) (ns : List ℕ)
      → reply (map (λ x. x.0) xs) ≡ outcomes (map counted ns)
      → length ns ≡ length xs
      → let f = flush_remaining reply (record { items = xs; pending = length xs }) in
        (f.queue.pending ≡ 0) × (ran f.recorded ≡ recorders xs) × (map (λ x. x.1) f.recorded ≡ ns)
  unfolding flush_remaining after_reply
  drained reply [] [] e n = (refl, refl, refl)
  drained reply [] (k ∷ ns) e n = absurd (omega arith)
  drained reply (x ∷ xs) ns e n =
      let same : length (map counted ns) ≡ length (x ∷ xs) = length-map ns counted ∙ n in
      let (a, b, c) = settle_all (x ∷ xs) ns n in
      rw (suc_is_not_zero (length xs), e, eq→== _ _ same)
        (omega (arith, settle-length (x ∷ xs) (map counted ns) same, ap length c), a, b)

  -- Where the pending count is the number of buffered items and the tokenizer counts every input, the end-of-run drain leaves nothing pending and runs each recorder once, in order, with its own count.
  pub drain_complete :
      (reply : List TokenizationInput → Reply) (q : TokenQueue R) (ns : List ℕ)
      → IsTight q
      → reply (map (λ x. x.0) q.items) ≡ outcomes (map counted ns)
      → length ns ≡ length q.items
      → let f = flush_remaining reply q in
        (f.queue.pending ≡ 0)
        × (ran f.recorded ≡ recorders q.items)
        × (map (λ x. x.1) f.recorded ≡ ns)
  drain_complete reply q ns tight e n = rw (← tight) at (drained reply q.items ns e n)
