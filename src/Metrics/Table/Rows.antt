-- ===== src/Metrics/Table/Rows.antt =====
-- metrics_table.py: what `set_field` does to the in-flight rows and to the tracked blocks.
pub mod Writes
use endpoints.Base.{
  ℕ, zero, suc, ◌+◌, ◌≤◌, ◌<◌, true, ◌≡◌, refl, ap, Option, none, some, List, [], ◌∷◌, ◌++◌, String,
  str_eq, arith, length, length-append, if◌then◌else◌, Bool-cases, Option-cases, inl, inr, eq_refl,
}
use mathlib.Core.Path.{subst}
use endpoints.Base.Dict.{
  Dict, lookup, insert, erase, contains, lookup-insert, length-insert, length-erase,
}
use endpoints.Core.Output.{ToolCall}
use endpoints.Core.Record.{
  EventRecord, issued, complete, recv_first, recv_non_first, SessionEventType, started,
  start_performance_tracking, stop_performance_tracking,
}
use endpoints.Metrics.Collector.{modify_at}
use endpoints.Metrics.Table.{
  SampleField, SampleRow, TrackedBlock, Trigger, Sinks, MetricsTable, handle_session_event,
  total_completed, set_row,
}
use endpoints.Metrics.Table.Fields.{
  set_field, finish_field, with_row, extend_block, extend_blocks, row_or_fresh, last_index,
  update_tracked_block, issued_later,
}

abbrev pub InRange : ℕ → Option ℕ → Type 0
InRange n none = ⊥
InRange n (some i) = i < n

-- every row's block exists
abbrev pub EveryRow : ℕ → Dict SampleRow → Type 0
EveryRow n [] = Unit {0}
EveryRow n ((k, r) ∷ d) = InRange n r.tracked_block_idx × EveryRow n d

pub InRange-mono : (n m : ℕ) (i : Option ℕ) → n ≤ m → InRange n i → InRange m i
InRange-mono n m none h p = p
InRange-mono n m (some i) h p = omega arith

pub EveryRow-mono : (n m : ℕ) (d : Dict SampleRow) → n ≤ m → EveryRow n d → EveryRow m d
EveryRow-mono n m [] h p = tt
EveryRow-mono n m ((k, r) ∷ d) h p =
    (InRange-mono n m r.tracked_block_idx h p.0, EveryRow-mono n m d h p.1)

abbrev pub Found : ℕ → Option SampleRow → Type 0
Found n none = Unit {0}
Found n (some r) = InRange n r.tracked_block_idx

pub EveryRow-Found : (n : ℕ) (k : String) (d : Dict SampleRow) → EveryRow n d → Found n (lookup k d)
unfolding lookup
EveryRow-Found n k [] p = tt
EveryRow-Found n k ((j, r') ∷ d) p = elim (Bool-cases (str_eq j k)) [
  | inl same ↦ rw same p.0
  | inr other ↦ rw other (EveryRow-Found n k d p.1)
]

pub EveryRow-lookup :
    (n : ℕ) (k : String) (d : Dict SampleRow) {r : SampleRow}
    → EveryRow n d
    → lookup k d ≡ some r
    → InRange n r.tracked_block_idx
EveryRow-lookup n k d p e = subst (Found n) e (EveryRow-Found n k d p)

pub EveryRow-insert :
    (n : ℕ) (k : String) (r : SampleRow) (d : Dict SampleRow)
    → InRange n r.tracked_block_idx
    → EveryRow n d
    → EveryRow n (insert k r d)
unfolding insert
EveryRow-insert n k r [] i p = (i, tt)
EveryRow-insert n k r ((j, r') ∷ d) i p = elim (Bool-cases (str_eq j k)) [
  | inl same ↦ rw same (i, p.1)
  | inr other ↦ rw other (p.0, EveryRow-insert n k r d i p.1)
]

pub EveryRow-erase :
    (n : ℕ) (k : String) (d : Dict SampleRow) → EveryRow n d → EveryRow n (erase k d)
unfolding erase
EveryRow-erase n k [] p = tt
EveryRow-erase n k ((j, r') ∷ d) p = elim (Bool-cases (str_eq j k)) [
  | inl same ↦ rw same p.1
  | inr other ↦ rw other (p.0, EveryRow-erase n k d p.1)
]

pub length-modify_at {ℓ} :
    {A : Type ℓ} (i : ℕ) (f : A → A) (xs : List A) → length (modify_at i f xs) ≡ length xs
length-modify_at i f [] = refl
length-modify_at zero f (x ∷ xs) = refl
length-modify_at (suc i) f (x ∷ xs) = ap suc (length-modify_at i f xs)

pub completed-modify_at :
    (i ts : ℕ) (bs : List TrackedBlock)
    → i < length bs
    → total_completed (modify_at i (extend_block ts) bs) ≡ total_completed bs + 1
completed-modify_at i ts [] h = elim h [ ]
completed-modify_at zero ts (b ∷ bs) h = omega arith
completed-modify_at (suc i) ts (b ∷ bs) h = omega (arith, completed-modify_at i ts bs (omega arith))

pub extend_blocks_lem :
    (i : Option ℕ) (ts : ℕ) (bs : List TrackedBlock)
    → InRange (length bs) i
    → (length (extend_blocks i ts bs) ≡ length bs)
      × (total_completed (extend_blocks i ts bs) ≡ total_completed bs + 1)
extend_blocks_lem none ts bs h = absurd h
extend_blocks_lem (some i) ts bs h =
    (length-modify_at i (extend_block ts) bs, completed-modify_at i ts bs h)

-- Every row belongs to a block that exists, and there is a block while tracking is on.
pub record IsSound (t : MetricsTable) : Type 0 where
  pub rows : EveryRow (length t.tracked_blocks) t.in_flight
  pub tracking : t.is_tracking ≡ true → 0 < length t.tracked_blocks

pub idx-set_row :
    (f : SampleField) (v : ℕ) (r : SampleRow)
    → (set_row f v r).tracked_block_idx ≡ r.tracked_block_idx
idx-set_row SampleField.issued_ns v r = refl
idx-set_row SampleField.recv_first_ns v r = refl
idx-set_row SampleField.last_recv_ns v r = refl
idx-set_row SampleField.complete_ns v r = refl

pub record Updated (t u : MetricsTable) : Type 0 where
  same_rows : u.in_flight ≡ t.in_flight
  same_tracking : u.is_tracking ≡ t.is_tracking
  same_blocks : length u.tracked_blocks ≡ length t.tracked_blocks
  one_completed : total_completed u.tracked_blocks ≡ total_completed t.tracked_blocks + 1

pub update-Updated :
    (row : SampleRow) (ts : ℕ) (t : MetricsTable)
    → InRange (length t.tracked_blocks) row.tracked_block_idx
    → Updated t (update_tracked_block row ts t)
unfolding update_tracked_block
update-Updated row ts t h =
    let (a, b) = extend_blocks_lem row.tracked_block_idx ts t.tracked_blocks h in
    elim (Bool-cases (issued_later row.issued_ns t.loadgen_max_issued_ns)) [
      | inl later ↦
          rw later
            (record { same_rows = refl; same_tracking = refl; same_blocks = a; one_completed = b })
      | inr not_later ↦
          rw not_later
            (record { same_rows = refl; same_tracking = refl; same_blocks = a; one_completed = b })
    ]

pub contains-insert :
    (k : String) (r : SampleRow) (d : Dict SampleRow) → contains k (insert k r d) ≡ true
contains-insert k r d = rw (lookup-insert k k r d, eq_refl k)

pub length-insert_le :
    (k : String) (r : SampleRow) (d : Dict SampleRow) → length (insert k r d) ≤ length d + 1
length-insert_le k r d = ground (arith, length-insert k r d)

-- how a change of one field moves the counts
pub record Moved (t u : MetricsTable) (gone : ℕ) : Type 0 where
  pub sound : IsSound u
  pub rows_left : length u.in_flight + gone ≡ length t.in_flight
  pub completed : total_completed u.tracked_blocks ≡ total_completed t.tracked_blocks + gone

pub record Opened (t u : MetricsTable) (uuid : String) : Type 0 where
  pub sound : IsSound u
  pub rows_added :
      length u.in_flight ≤ length t.in_flight + (if contains uuid u.in_flight then 1 else 0)
  pub completed : total_completed u.tracked_blocks ≡ total_completed t.tracked_blocks

pub last_index-InRange : (n : ℕ) → 0 < n → InRange n (last_index n)
last_index-InRange zero h = elim h [ ]
last_index-InRange (suc n) h = omega arith
