-- ===== src/LoadGen/Burst/Order.antt =====
-- load_generator/strategy.py: the samples that the burst strategy issues.
use mathlib.Core.Path.{subst}
use mathlib.Core.List.{append-nil, append_assoc}
use endpoints.Base.{
  ℕ, zero, suc, ◌+◌, ◌≤◌, true, false, ◌≡◌, refl, sym, ◌∙◌, ap, Option, none, some, List, [], ◌∷◌,
  ◌++◌, map, length, arith, if_true, if_false,
}
use endpoints.Base.Dict.{Dict}
use endpoints.Core.Output.{Json}
use endpoints.LoadGen.State.{PhaseIssuer, Session, StopCheck}
use endpoints.LoadGen.Issuer.{Call, Answer, accepted, refused, raised, issue}
use endpoints.LoadGen.Responses.{handle_query_result}
use endpoints.LoadGen.Concurrency.{Turn, next, got}
use endpoints.LoadGen.Burst.{
  Burst, Progress, pending, is_pending, plain, after_issue, issue_drawn, issue_next, burst_turn,
  burst_turns,
}
use endpoints.LoadGen.Burst.Sent.{Tally, Issues, issue-Issues, received-Tally, samples_of}
use endpoints.LoadGen.Guard.{issued_of}

-- how many of the turns are callbacks
abbrev pub callbacks : List Turn → ℕ
callbacks [] = 0
callbacks (next _ ∷ ts) = callbacks ts + 1
callbacks (got _ _ ∷ ts) = callbacks ts

abbrev pub prepend : Option ℕ → List ℕ → List ℕ
prepend none is = []
prepend (some i) is = i ∷ is

scheduled : (p : Progress) → p ≡ pending → is_pending p ≡ false → ⊥
scheduled p e h = let k : true ≡ false = sym (ap is_pending e) ∙ h in absurd (cc)

module _ {O : Type 0} (next_index : O → Option ℕ × O) where
  -- the next `k` indices of the order
  abbrev pub drawn : ℕ → O → List ℕ
  drawn zero o = []
  drawn (suc k) o = prepend (next_index o).0 (drawn k (next_index o).1)

module _ {O : Type 0} (next_index : O → Option ℕ × O) (load_sample : ℕ → Option (Dict Json)) where
  -- What `m` callbacks from the order `o` on have done to a session of the tally `n`, `l`, `k`.
  pub record Ordered (n : ℕ) (l : List (Option (Dict Json))) (k : StopCheck) (o : O) (m : ℕ)
      (e : Burst O) : Type 0 where
    pub issues : ℕ
    pub tally : Tally (n + issues) (l ++ map load_sample (drawn next_index issues o)) k e.session
    pub full : length (drawn next_index issues o) ≡ issues
    pub all : e.progress ≡ pending → issues ≡ m
    pub capped : k.counts_samples ≡ true → n + issues ≤ k.total_samples

  none_more :
      (n : ℕ) (l : List (Option (Dict Json))) (k : StopCheck) (o : O) (m : ℕ) (e : Burst O)
      → (k.counts_samples ≡ true → n ≤ k.total_samples)
      → (e.progress ≡ pending → 0 ≡ m)
      → Tally n l k e.session
      → Ordered n l k o m e
  none_more n l k o m e room all h = record {
    issues = 0;
    tally = record {
      count = h.count ∙ omega arith;
      sent = h.sent ∙ sym (append-nil l);
      limits = h.limits;
      present = h.present;
    };
    full = refl;
    all = all;
    capped = λ counts. omega (arith, room counts);
  }

  one_more :
      (n : ℕ) (l : List (Option (Dict Json))) (k : StopCheck) (o : O) (i : ℕ) (rest : O) (m : ℕ)
      (e : Burst O)
      → next_index o ≡ (some i, rest)
      → Ordered (n + 1) (l ++ load_sample i ∷ []) k rest m e
      → Ordered n l k o (m + 1) e
  one_more n l k o i rest m e drew h = record {
    issues = suc h.issues;
    tally = record {
      count = h.tally.count ∙ omega arith;
      sent =
          h.tally.sent
          ∙ append_assoc l (load_sample i ∷ []) (map load_sample (drawn next_index h.issues rest))
          ∙ ap (λ d. l ++ map load_sample (prepend d.0 (drawn next_index h.issues d.1))) (sym drew);
      limits = h.tally.limits;
      present = h.tally.present;
    };
    full = ap (λ d. length (prepend d.0 (drawn next_index h.issues d.1))) drew ∙ ap suc h.full;
    all = λ p. omega (arith, h.all p);
    capped = λ counts. omega (arith, h.capped counts);
  }

  -- a strategy that is not scheduled any more issues nothing
  pub idle-Tally :
      (n : ℕ) (l : List (Option (Dict Json))) (k : StopCheck) (ts : List Turn) (b : Burst O)
      → is_pending b.progress ≡ false
      → Tally n l k b.session
      → let e = burst_turns next_index load_sample ts b in
        Tally n l k e.session × (e.progress ≡ b.progress)
  unfolding burst_turns burst_turn issue_next
  idle-Tally n l k [] b idle h = (h, refl)
  idle-Tally n l k (next c ∷ ts) b idle h =
      subst
        (λ x.
          let e = burst_turns next_index load_sample ts x in
          Tally n l k e.session × (e.progress ≡ b.progress))
        (sym (if_false _ _ _ idle)) (idle-Tally n l k ts b idle h)
  idle-Tally n l k (got r now ∷ ts) b idle h =
      idle-Tally n l k ts (record b { session = handle_query_result r now b.session }) idle
        (received-Tally n l k r now b.session h)

  idle-Ordered :
      (n : ℕ) (l : List (Option (Dict Json))) (k : StopCheck) (o : O) (m : ℕ) (ts : List Turn)
      (b : Burst O)
      → (k.counts_samples ≡ true → n ≤ k.total_samples)
      → is_pending b.progress ≡ false
      → Tally n l k b.session
      → Ordered n l k o m (burst_turns next_index load_sample ts b)
  idle-Ordered n l k o m ts b room idle h =
      let (kept, same) = idle-Tally n l k ts b idle h in
      none_more n l k o m _ room (λ p. absurd (scheduled _ (sym same ∙ p) idle)) kept

  -- a callback, given what the rest of the turns does
  module _ (k : StopCheck) (m : ℕ) (ts : List Turn)
      (rest : (n : ℕ) (l : List (Option (Dict Json))) (b : Burst O)
        → (k.counts_samples ≡ true → n ≤ k.total_samples)
        → Tally n l k b.session
        → b.progress ≡ pending
        → Ordered n l k b.order m (burst_turns next_index load_sample ts b)) where
    issued-Ordered :
        (n : ℕ) (l : List (Option (Dict Json))) (o : O) (i : ℕ) (o' : O) (r : Answer × Session)
        → (k.counts_samples ≡ true → n ≤ k.total_samples)
        → next_index o ≡ (some i, o')
        → Issues n l k (load_sample i) r
        → Ordered n l k o (m + 1) (burst_turns next_index load_sample ts (after_issue o' r))
    issued-Ordered n l o i o' (refused, t) room drew h =
        idle-Ordered n l k o (m + 1) ts _ room refl h
    issued-Ordered n l o i o' (raised, t) room drew h =
        idle-Ordered n l k o (m + 1) ts _ room refl h
    issued-Ordered n l o i o' (accepted id, t) room drew h =
        one_more n l k o i o' m _ drew (rest (n + 1) (l ++ load_sample i ∷ []) _ h.1 h.0 refl)

    drawn-Ordered :
        (n : ℕ) (l : List (Option (Dict Json))) (o : O) (c : Call) (p : Option PhaseIssuer)
        (r : Option ℕ × O) (s : Session)
        → (k.counts_samples ≡ true → n ≤ k.total_samples)
        → s.issuer ≡ p
        → next_index o ≡ r
        → Tally n l k s
        → Ordered n l k o
            (m + 1)
            (burst_turns next_index load_sample ts (issue_drawn next_index load_sample c p r s))
    drawn-Ordered n l o c p (none, o') s room e drew h =
        idle-Ordered n l k o (m + 1) ts _ room refl h
    drawn-Ordered n l o c none (some i, o') s room e drew h =
        idle-Ordered n l k o (m + 1) ts _ room refl h
    drawn-Ordered n l o c (some p) (some i, o') s room e drew h =
        issued-Ordered n l o i o' (issue load_sample (plain c i) p s) room drew (
          subst (λ x. Issues x l k (load_sample i) (issue load_sample (plain c i) p s))
            (ap issued_of (sym e) ∙ h.count)
            (subst
              (λ x. Issues p.issued_count x k (load_sample i) (issue load_sample (plain c i) p s))
              h.sent
              (subst
                (λ x.
                  Issues p.issued_count (samples_of s.sent) x (load_sample i)
                    (issue load_sample (plain c i) p s))
                h.limits (issue-Issues load_sample c i p s e))))

  pub turns-Ordered :
      (n : ℕ) (l : List (Option (Dict Json))) (k : StopCheck) (ts : List Turn) (b : Burst O)
      → (k.counts_samples ≡ true → n ≤ k.total_samples)
      → Tally n l k b.session
      → b.progress ≡ pending
      → Ordered n l k b.order (callbacks ts) (burst_turns next_index load_sample ts b)
  unfolding burst_turns burst_turn issue_next
  turns-Ordered n l k [] b room h go = none_more n l k b.order 0 b room (λ p. refl) h
  turns-Ordered n l k (next c ∷ ts) b room h go =
      subst
        (λ x. Ordered n l k b.order (callbacks ts + 1) (burst_turns next_index load_sample ts x))
        (sym (if_true _ _ _ (ap is_pending go)))
        (drawn-Ordered k (callbacks ts) ts (λ n l b. turns-Ordered n l k ts b) n l b.order c
          b.session.issuer (next_index b.order) b.session room refl refl h)
  turns-Ordered n l k (got r now ∷ ts) b room h go =
      turns-Ordered n l k ts (record b { session = handle_query_result r now b.session }) room
        (received-Tally n l k r now b.session h) go
