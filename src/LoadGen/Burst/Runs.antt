-- ===== src/LoadGen/Burst/Runs.antt =====
-- load_generator/strategy.py: what the burst strategy issues in a run, and that it ends.
use endpoints.Base.{
  ℕ, ◌+◌, ◌≤◌, ◌<◌, true, false, ◌≡◌, refl, ◌∙◌, ap, Option, List, ◌++◌, map, length, arith,
  Bool-cases, inl, inr, is_some,
}
use endpoints.Base.Dict.{Dict}
use endpoints.Core.Output.{Json}
use endpoints.LoadGen.Concurrency.{Turn}
use endpoints.LoadGen.Burst.{Burst, Progress, pending, ended, failed, is_pending, burst_turns}
use endpoints.LoadGen.Burst.Sent.{Tally, samples_of}
use endpoints.LoadGen.Guard.{issued_of}
use endpoints.LoadGen.Burst.Order.{callbacks, drawn, idle-Tally, turns-Ordered}

at_start :
    {O : Type 0} (b : Burst O)
    → is_some b.session.issuer ≡ true
    → Tally (issued_of b.session.issuer) (samples_of b.session.sent) b.session.check b.session
at_start b e = record { count = refl; sent = refl; limits = refl; present = e }

to_pending : (p : Progress) → is_pending p ≡ true → p ≡ pending
to_pending pending e = refl
to_pending ended e = absurd (cc)
to_pending failed e = absurd (cc)

module _ {O : Type 0} (next_index : O → Option ℕ × O) (load_sample : ℕ → Option (Dict Json)) where
  -- A burst strategy that is scheduled in a phase within its limit sends, over any callbacks and
  -- results, the samples of the next indices of its order, in that order and without a gap, and
  -- counts each as issued once.
  pub burst_turns-in_order :
      (ts : List Turn) (b : Burst O)
      → b.progress ≡ pending
      → is_some b.session.issuer ≡ true
      → (b.session.check.counts_samples ≡ true
          → issued_of b.session.issuer ≤ b.session.check.total_samples)
      → let e = burst_turns next_index load_sample ts b in
        (i : ℕ) × (samples_of e.session.sent
          ≡ samples_of b.session.sent ++ map load_sample (drawn next_index i b.order))
        × (issued_of e.session.issuer
            ≡ issued_of b.session.issuer + length (drawn next_index i b.order))
  burst_turns-in_order ts b go present room =
      let h = turns-Ordered next_index load_sample _ _ _ ts b room (at_start b present) go in
      (h.issues, h.tally.sent, omega (arith, h.tally.count, h.full))

  -- Where the load pattern counts samples, a burst strategy in a phase within its limit is not
  -- scheduled any more once its callbacks ran more often than the samples that the limit had left,
  -- whatever results came between them.
  pub burst_turns-ends :
      (ts : List Turn) (b : Burst O)
      → is_some b.session.issuer ≡ true
      → b.session.check.counts_samples ≡ true
      → issued_of b.session.issuer ≤ b.session.check.total_samples
      → b.session.check.total_samples < issued_of b.session.issuer + callbacks ts
      → is_pending (burst_turns next_index load_sample ts b).progress ≡ false
  burst_turns-ends ts b present counts room enough = elim (Bool-cases (is_pending b.progress)) [
    | inr idle ↦
        ap is_pending (idle-Tally next_index load_sample _ _ _ ts b idle (at_start b present)).1
        ∙ idle
    | inl going ↦
        let h =
          turns-Ordered next_index load_sample _ _ _ ts b (λ c. room) (at_start b present)
            (to_pending b.progress going) in
        elim (Bool-cases (is_pending (burst_turns next_index load_sample ts b).progress)) [
          | inr idle ↦ idle
          | inl still ↦ absurd (omega (arith, h.all (to_pending _ still), h.capped counts, enough))
        ]
  ]
