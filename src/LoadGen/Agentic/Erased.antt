-- ===== src/LoadGen/Agentic/Erased.antt =====
-- load_generator/agentic_inference_strategy.py: `_finish_conversation` drops a conversation that has nothing
-- outstanding.
use mathlib.Core.Path.{subst}
use endpoints.Base.{◌+◌, ◌<◌, ◌≡◌, ◌∙◌, sym, inl, inr, String, str_eq, arith, Bool-cases}
use endpoints.Base.Dict.{erase}
use endpoints.Base.Tally.{keys, keys-erase, keys-found, found-keys, lookup-erase, same_text}
use endpoints.LoadGen.Trajectories.{Plan}
use endpoints.LoadGen.Agentic.{Issuer, Strategy}
use endpoints.LoadGen.Agentic.Linked.{GivesFresh, Linked, at, nowhere, Ready}
use endpoints.LoadGen.Agentic.Issued.{undelayed, there}

module _ (plan : Plan) {S : Type 0} {ops : Issuer S} (laws : GivesFresh ops) where
  -- a conversation without anything outstanding ends
  erased-Linked :
      (conv : String) (a : Strategy S)
      → Linked plan (at conv) a.delays a.inflight a.active a.started a.conversations
      → Linked plan nowhere a.delays a.inflight (erase conv a.active) a.started a.conversations
  erased-Linked conv a h =
      let here =
        found-keys conv a.active
          (there plan conv a.delays a.inflight a.active a.started a.conversations h) in
      let less : (c : String) → keys c (erase conv a.active) + at conv c ≡ keys c a.active =
        λ c. keys-erase c conv a.active here in
      record {
        balanced = λ c. omega (arith, h.balanced c, less c);
        single = λ c. omega (arith, h.single c, less c);
        due = λ c t e. elim (Bool-cases (str_eq conv c)) [
          | inl same ↦
              let k : 0 < keys c a.delays = keys-found c t a.delays e in
              absurd (
                omega (
                  arith,
                  undelayed plan conv a.delays a.inflight a.active a.started a.conversations h,
                  subst (λ (x : String). 0 < keys x a.delays) (sym (same_text conv c same)) k,
                ))
          | inr other ↦
              let (st, found, turn) = h.due c t e in
              (st, lookup-erase c conv a.active other ∙ found, turn)
        ];
        drawn = λ c p. h.drawn c (omega (arith, p, less c));
        met = λ c p. h.met c (omega (arith, p, less c));
      }

  pub erased-Ready :
      (conv : String) (a : Strategy S)
      → Ready plan laws (at conv) a
      → Ready plan laws nowhere (record a { active = erase conv a.active })
  erased-Ready conv a h = record {
    linked = λ e. erased-Linked conv a (h.linked e);
    budgeted = h.budgeted;
    idle = h.idle;
    known = h.known;
    taken = h.taken;
  }
