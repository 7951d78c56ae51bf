-- ===== src/Metrics/Series.antt =====
-- metrics_aggregator/registry.py: `SeriesSampler.record` for integer series. The HDR histogram is
-- third-party code that the sampler only writes to here: `hdr_calls` lists what it is handed.
pub mod Rollups
use endpoints.Base.{
  ℕ, suc, ◌+◌, ◌*◌, Bool, true, false, not, ◌&&◌, Option, none, some, List, [], ◌∷◌, ◌++◌, String,
  ltb, if◌then◌else◌,
}
use endpoints.Base.Int.{ℤ, pos, ◌+ℤ◌, ◌*ℤ◌, ltb_ℤ, pos_part, neg_part}

-- `none` stands for `math.inf` in `low`, and for `-math.inf` in `high`.
pub record SeriesSampler : Type 0 where
  pub hdr_low : ℕ
  pub hdr_high : ℕ
  pub hdr_calls : List ℤ
  pub raw : List ℤ
  pub count : ℕ
  pub total : ℤ
  pub sum_sq : ℤ
  pub low : Option ℤ
  pub high : Option ℤ
  pub warned_clamp : Bool

abbrev pub max_ℕ : ℕ → ℕ → ℕ
max_ℕ a b = if ltb a b then b else a

abbrev pub empty_sampler : ℕ → ℕ → SeriesSampler
empty_sampler low high = record {
  hdr_low = low;
  hdr_high = high;
  hdr_calls = [];
  raw = [];
  count = 0;
  total = pos 0;
  sum_sq = pos 0;
  low = none;
  high = none;
  warned_clamp = false;
}

-- The constructor; `none` is its `ValueError`.
unfoldable pub new_sampler : ℕ → ℕ → Option SeriesSampler
new_sampler hdr_low hdr_high =
    let low = max_ℕ hdr_low 1 in
    if ltb hdr_high (low * 2) then none else some (empty_sampler low hdr_high)

abbrev pub lower : ℤ → Option ℤ → Option ℤ
lower v none = some v
lower v (some m) = if ltb_ℤ v m then some v else some m

abbrev pub higher : ℤ → Option ℤ → Option ℤ
higher v none = some v
higher v (some m) = if ltb_ℤ m v then some v else some m

-- `max(int(value), hdr_low)`, then cut at `hdr_high`
unfoldable pub clamp : SeriesSampler → ℤ → ℤ
clamp s v =
    let raised = if ltb_ℤ v (pos s.hdr_low) then pos s.hdr_low else v in
    if ltb_ℤ (pos s.hdr_high) raised then pos s.hdr_high else raised

-- `a != b`
abbrev differs : ℤ → ℤ → Bool
differs a b = if ltb_ℤ a b then true else ltb_ℤ b a

unfoldable pub record_value : ℤ → SeriesSampler → SeriesSampler
unfolding clamp
record_value v s = record s {
  count = s.count + 1;
  total = s.total +ℤ v;
  sum_sq = s.sum_sq +ℤ v *ℤ v;
  low = lower v s.low;
  high = higher v s.high;
  warned_clamp = if not s.warned_clamp && differs (clamp s v) v then true else s.warned_clamp;
  hdr_calls = s.hdr_calls ++ clamp s v ∷ [];
  raw = s.raw ++ v ∷ [];
}

-- the loop of `build_token_series_dict`, and any run of recordings
unfoldable pub record_all : List ℤ → SeriesSampler → SeriesSampler
record_all [] s = s
record_all (v ∷ vs) s = record_all vs (record_value v s)

-- A series of dtype float (TPOT). A value is the pair whose quotient Python computes; of the sampler
-- only the raw values are kept, the rollups being rounded floating-point numbers.
pub record Quotient : Type 0 where
  pub numerator : ℤ
  pub denominator : ℕ

abbrev pub FloatSeries : Type 0
FloatSeries = List Quotient
