-- ===== src/Metrics/Collector.antt =====
-- metrics/steady_state_diagnostics.py: `SuperPassCollector`, which buckets tracked samples into
-- super-passes by issue order. A timestamp of -1 and an index of -1 are `none`.
pub mod Buckets
use endpoints.Base.{
  ℕ, zero, suc, ◌+◌, ◌/◌, ◌-◌, Bool, true, false, ◌&&◌, Option, none, some, List, [], ◌∷◌, ◌++◌,
  ltb, ◌==◌, if◌then◌else◌, length,
}
use endpoints.Base.Int.{ℤ, sub_ℕ}
use endpoints.Metrics.Series.{Quotient}

pub record SuperPassRollup : Type 0 where
  pub index : ℕ
  pub n_issued : ℕ
  pub first_issue_ns : Option ℕ
  pub last_issue_ns : Option ℕ
  pub last_event_ns : Option ℕ
  pub ttft_ns : List ℤ
  pub ttft_warm_ns : List ℤ
  pub tpot_ns : List Quotient
  pub latency_ns : List ℤ
  pub osl : List ℕ
  pub out_tokens : ℕ

abbrev pub fresh_rollup : ℕ → SuperPassRollup
fresh_rollup i = record {
  index = i;
  n_issued = 0;
  first_issue_ns = none;
  last_issue_ns = none;
  last_event_ns = none;
  ttft_ns = [];
  ttft_warm_ns = [];
  tpot_ns = [];
  latency_ns = [];
  osl = [];
  out_tokens = 0;
}

pub record Collector : Type 0 where
  pub superpass_size : ℕ
  pub series : List SuperPassRollup
  pub issue_counter : ℕ

abbrev pub new_collector : Collector
new_collector = record { superpass_size = 0; series = []; issue_counter = 0 }

-- `xs[i]` changed in place. Out of range Python raises; see Collector/Buckets.
abbrev pub modify_at {ℓ} : {A : Type ℓ} → ℕ → (A → A) → List A → List A
modify_at i f [] = []
modify_at zero f (x ∷ xs) = f x ∷ xs
modify_at (suc i) f (x ∷ xs) = x ∷ modify_at i f xs

-- `max(old, ts)` where the old value may be -1
abbrev latest : Option ℕ → ℕ → Option ℕ
latest none ts = some ts
latest (some t) ts = some (if ltb t ts then ts else t)

abbrev first_of_all : Option ℕ → ℕ → Option ℕ
first_of_all none ts = some ts
first_of_all (some t) ts = some t

abbrev is_empty {ℓ} : {A : Type ℓ} → List A → Bool
is_empty [] = true
is_empty (_ ∷ _) = false

unfoldable pub announce_phase : ℕ → Collector → Collector
announce_phase num_turns c =
    if ltb 0 num_turns && is_empty c.series then record c { superpass_size = num_turns } else c

-- `while len(self._series) <= superpass_index: append`, by the number of rounds left
unfoldable pub extend : ℕ → List SuperPassRollup → List SuperPassRollup
extend zero s = s
extend (suc n) s = extend n (s ++ fresh_rollup (length s) ∷ [])

unfoldable pub mark_issue : ℕ → SuperPassRollup → SuperPassRollup
mark_issue ts sp = record sp {
  n_issued = sp.n_issued + 1;
  first_issue_ns = first_of_all sp.first_issue_ns ts;
  last_issue_ns = latest sp.last_issue_ns ts;
  last_event_ns = latest sp.last_event_ns ts;
}

-- `assign`: the index, and the collector after it
unfoldable pub assign : ℕ → Collector → Option ℕ × Collector
unfolding extend mark_issue
assign ts c =
    if c.superpass_size == 0
    then (none, c)
    else let i = c.issue_counter / c.superpass_size in
      (
        some i,
        record c {
          issue_counter = c.issue_counter + 1;
          series = modify_at i (mark_issue ts) (extend (i + 1 - length c.series) c.series);
        },
      )

abbrev reissued : ℕ → SuperPassRollup → SuperPassRollup
reissued ts sp = record sp {
  last_issue_ns = latest sp.last_issue_ns ts;
  last_event_ns = latest sp.last_event_ns ts;
}

unfoldable pub reissue : ℕ → ℕ → Collector → Collector
reissue i ts c = record c { series = modify_at i (reissued ts) c.series }

-- `turn is None or turn > 1`
abbrev is_warm : Option ℕ → Bool
is_warm none = true
is_warm (some n) = ltb 1 n

abbrev first_received : ℕ → ℕ → Option ℕ → Bool → SuperPassRollup → SuperPassRollup
first_received issue_ns ts turn first sp =
    let seen = record sp { last_event_ns = latest sp.last_event_ns ts } in
    let ttft = sub_ℕ ts issue_ns in
    let counted = record seen { ttft_ns = seen.ttft_ns ++ ttft ∷ [] } in
    if first
    then (if is_warm turn
        then record counted { ttft_warm_ns = counted.ttft_warm_ns ++ ttft ∷ [] }
        else counted)
    else seen

unfoldable pub on_recv_first : ℕ → ℕ → ℕ → Option ℕ → Bool → Collector → Collector
on_recv_first i issue_ns ts turn first c = record c {
  series = modify_at i (first_received issue_ns ts turn first) c.series;
}

abbrev completed : ℕ → ℕ → SuperPassRollup → SuperPassRollup
completed issue_ns ts sp = record sp {
  last_event_ns = latest sp.last_event_ns ts;
  latency_ns = sp.latency_ns ++ sub_ℕ ts issue_ns ∷ [];
}

-- `on_complete`; the aggregator drops its return value
unfoldable pub on_complete : ℕ → ℕ → ℕ → Collector → Collector
on_complete i issue_ns ts c = record c { series = modify_at i (completed issue_ns ts) c.series }

abbrev tpot_added : Quotient → ℕ → SuperPassRollup → SuperPassRollup
tpot_added tpot tokens sp = record sp {
  tpot_ns = sp.tpot_ns ++ tpot ∷ [];
  osl = sp.osl ++ tokens ∷ [];
  out_tokens = sp.out_tokens + tokens;
}

unfoldable pub add_tpot : ℕ → Quotient → ℕ → Collector → Collector
add_tpot i tpot tokens c = record c { series = modify_at i (tpot_added tpot tokens) c.series }
