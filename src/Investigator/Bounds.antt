-- ===== src/Investigator/Bounds.antt =====
-- The rounds of investigator/loop.py end within their limit.
use close_control.Base.{
  ◌≡◌, ◌⊎◌, refl, inl, inr, ℕ, zero, suc, ◌+◌, ◌≤◌, List, [], ◌∷◌, All, All-append, All-imp, arith,
  Option, none, some, String, Bool, true, false,
}
use close_control.Investigator.{
  Outside, Call, Reply, StoppedReason, ToolCallRecord, Trace, Rounds, run_calls, after_reply,
  tool_rounds, max_tool_rounds, InvestigationResult, investigate, validated, Parsed,
}

abbrev pub is_exhausted : StoppedReason → Bool
is_exhausted StoppedReason.model_finished = false
is_exhausted StoppedReason.max_rounds_exceeded = true
is_exhausted (StoppedReason.tool_round_failed error) = false

module _ (o : Outside) where
  open o use {Message}

  -- The calls of the log were made in these rounds.
  abbrev pub LoggedBy : ℕ → List (ToolCallRecord o) → Type 0
  LoggedBy last log = All (λ entry. (1 ≤ entry.step) × (entry.step ≤ last)) log

  run_calls-LoggedBy :
      (step : ℕ) (calls : List Call) (t : Trace o)
      → 1 ≤ step
      → LoggedBy step t.investigation_log
      → LoggedBy step (run_calls o step calls t).investigation_log
  run_calls-LoggedBy step [] t s h = h
  run_calls-LoggedBy step (call ∷ calls) t s h =
      run_calls-LoggedBy step calls _ s
        (All-append _ t.investigation_log _ h ((s, omega arith), tt))

  later_round :
      (step : ℕ) (log : List (ToolCallRecord o)) → LoggedBy step log → LoggedBy (suc step) log
  later_round step log h = All-imp (λ entry e. (e.0, omega (arith, e.1))) log h

  -- Within its bound, with a log of its rounds; all rounds are used where none of them ended it.
  pub record IsBounded (limit : ℕ) (rounds : Rounds o) : Type 0 where
    pub within : rounds.rounds_used ≤ limit
    pub logged : LoggedBy rounds.rounds_used rounds.trace.investigation_log
    pub exhausted : (is_exhausted rounds.stopped_reason ≡ false) ⊎ (rounds.rounds_used ≡ limit)

  one_more_round :
      (left used : ℕ) (rounds : Rounds o)
      → IsBounded (left + suc used) rounds
      → IsBounded (suc left + used) rounds
  one_more_round left used rounds h = record {
    within = omega (arith, h.within);
    logged = h.logged;
    exhausted = elim h.exhausted [ inl e ↦ inl e | inr e ↦ inr (omega (arith, e)) ];
  }

  after_reply-IsBounded :
      (limit step : ℕ) (go_on : Trace o → Rounds o) (t : Trace o) (reply : Reply Message)
      → ((t' : Trace o) → LoggedBy step t'.investigation_log → IsBounded limit (go_on t'))
      → 1 ≤ step
      → step ≤ limit
      → LoggedBy step t.investigation_log
      → IsBounded limit (after_reply o go_on step t reply)
  unfolding after_reply
  after_reply-IsBounded limit step go_on t (Reply.round_failed error) more s fits h = record {
    within = fits;
    logged = h;
    exhausted = inl refl;
  }
  after_reply-IsBounded limit step go_on t (Reply.said message []) more s fits h = record {
    within = fits;
    logged = h;
    exhausted = inl refl;
  }
  after_reply-IsBounded limit step go_on t (Reply.said message (call ∷ calls)) more s fits h =
      more _ (run_calls-LoggedBy step (call ∷ calls) _ s h)

  tool_rounds-IsBounded :
      (left used : ℕ) (t : Trace o)
      → LoggedBy used t.investigation_log
      → IsBounded (left + used) (tool_rounds o left used t)
  unfolding tool_rounds
  tool_rounds-IsBounded zero used t h = record {
    within = omega arith;
    logged = h;
    exhausted = inr (omega arith);
  }
  tool_rounds-IsBounded (suc left) used t h =
      after_reply-IsBounded (suc left + used) (suc used) _ t _
        (λ t' h'. one_more_round left used _ (tool_rounds-IsBounded left (suc used) t' h'))
        (omega arith) (omega arith) (later_round used t.investigation_log h)

  -- What an investigation hands on of its rounds.
  abbrev pub Keeps : Option (InvestigationResult o) → Type 0
  Keeps none = Unit
  Keeps (some result) =
      (result.tool_rounds_used ≤ max_tool_rounds)
      × (LoggedBy result.tool_rounds_used result.investigation_log
          × ((is_exhausted result.stopped_reason ≡ false)
              ⊎ (result.tool_rounds_used ≡ max_tool_rounds)))

  validated-Keeps :
      (rounds : Rounds o) (matcher_type : Option String) (parsed : Parsed)
      → IsBounded max_tool_rounds rounds
      → Keeps (validated o rounds matcher_type parsed)
  validated-Keeps rounds matcher_type Parsed.not_json h = (h.within, (h.logged, h.exhausted))
  validated-Keeps rounds matcher_type Parsed.refused h = tt
  validated-Keeps rounds matcher_type (Parsed.verdict r) h = (h.within, (h.logged, h.exhausted))

  -- An investigation that gives a result has had at most six rounds of tools, each entry of its log
  -- is of one of them, and it has had all six if it was stopped for their number.
  pub investigate-Keeps :
      (matcher_type : Option String) (messages : List Message)
      → Keeps (investigate o matcher_type messages)
  unfolding investigate
  investigate-Keeps matcher_type messages =
      validated-Keeps _ matcher_type _ (tool_rounds-IsBounded max_tool_rounds 0 _ tt)
