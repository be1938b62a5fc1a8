-- ===== src/Investigator.antt =====
-- investigator/loop.py: the loop of tool rounds, and the final answer of investigator/ollama_client.py.
-- The model, the tools, the parser of its answers and the texts are parameters. What is measured
-- (the elapsed time) and what is only shown (the summary) are left out.

pub mod Bounds
pub mod Tools
pub mod Verdict
use close_control.Base.{
  ℕ, zero, suc, String, Option, none, some, List, [], ◌∷◌, ◌++◌, Bool, true, false, ◌&&◌, contains,
  map, if◌then◌else◌,
}
use close_control.Agent.{Decimal, ExceptionResolution, at_least_percent}

-- MAX_TOOL_ROUNDS
abbrev pub max_tool_rounds : ℕ
max_tool_rounds = 6

-- The keys of TOOLS in investigator/tools.py.
abbrev pub tools : List String
tools =
    "get_transaction_details" ∷ "get_settlement_details" ∷ "calculate_settlement_variance"
    ∷ "lookup_related_transactions" ∷ "search_bank_statement" ∷ "get_loan_recovery_schedule"
    ∷ "compute_delta" ∷ []

-- A call that the model asks for; the name may be missing.
pub record Call : Type 0 where
  pub name : Option String
  pub arguments : String

-- What a round of the model gives: an exception, or a message with its calls.
pub data Reply (Message : Type 0) : Type 0 where
  round_failed : String → Reply Message
  said : Message → List Call → Reply Message

-- The JSON of a final answer: none at all, one that the schema refuses, or a verdict.
pub data Parsed : Type 0 where
  not_json refused : Parsed
  verdict : ExceptionResolution → Parsed

-- The model and the tools: `run_tool` is none where the tool raises, and `final_call` where the
-- request does.
pub record Outside : Type 1 where
  pub Message : Type 0
  pub Result : Type 0
  pub chat_with_tools : ℕ → List Message → Reply Message
  pub run_tool : String → String → Option Result
  pub unknown_tool : Option String → Result
  pub raised : String → Result
  pub tool_message : Result → Message
  pub schema_instruction : Message
  pub final_call : List Message → Option String
  pub retry_messages : String → List Message
  pub parse : String → Parsed
  pub overridden_text : String → String → String
  pub tool_label : ℕ → String

pub data StoppedReason : Type 0 where
  model_finished max_rounds_exceeded : StoppedReason
  tool_round_failed : String → StoppedReason

module _ (o : Outside) where
  open o use {Message, Result}

  pub record ToolCallRecord : Type 0 where
    pub step : ℕ
    pub tool_name : String
    pub arguments : String
    pub result : Result

  abbrev result_of : String → Option Result → Result
  result_of name none = o.raised name
  result_of name (some r) = r

  -- `name or "?"`
  abbrev name_of : Option String → String
  name_of none = "?"
  name_of (some name) = name

  abbrev call_result : Option String → String → Result
  call_result none arguments = o.unknown_tool none
  call_result (some name) arguments =
      if contains tools name
      then result_of name (o.run_tool name arguments)
      else o.unknown_tool (some name)

  -- The messages and the log.
  pub record Trace : Type 0 where
    pub messages : List Message
    pub investigation_log : List ToolCallRecord

  -- `for call in tool_calls`
  abbrev pub run_calls : ℕ → List Call → Trace → Trace
  run_calls step [] t = t
  run_calls step (call ∷ calls) t =
      let result = call_result call.name call.arguments in
      run_calls step calls (record {
        messages = t.messages ++ o.tool_message result ∷ [];
        investigation_log =
            t.investigation_log
            ++ record {
              step = step;
              tool_name = name_of call.name;
              arguments = call.arguments;
              result = result;
            }
              ∷ [];
      })

  -- What the loop leaves.
  pub record Rounds : Type 0 where
    pub trace : Trace
    pub rounds_used : ℕ
    pub stopped_reason : StoppedReason

  -- The body of the loop on a reply; `go_on` is the loop with the rounds that are left.
  unfoldable pub after_reply : (Trace → Rounds) → ℕ → Trace → Reply Message → Rounds
  after_reply go_on step t (Reply.round_failed error) = record {
    trace = t;
    rounds_used = step;
    stopped_reason = StoppedReason.tool_round_failed error;
  }
  after_reply go_on step t (Reply.said message []) = record {
    trace = record t { messages = t.messages ++ message ∷ [] };
    rounds_used = step;
    stopped_reason = StoppedReason.model_finished;
  }
  after_reply go_on step t (Reply.said message (call ∷ calls)) =
      go_on (run_calls step (call ∷ calls) (record t { messages = t.messages ++ message ∷ [] }))

  -- `for step in range(1, MAX_TOOL_ROUNDS + 1)`, with `left` rounds left after `used`.
  unfoldable pub tool_rounds : ℕ → ℕ → Trace → Rounds
  unfolding after_reply
  tool_rounds zero used t = record {
    trace = t;
    rounds_used = used;
    stopped_reason = StoppedReason.max_rounds_exceeded;
  }
  tool_rounds (suc left) used t =
      after_reply (tool_rounds left (suc used)) (suc used) t
        (o.chat_with_tools (suc used) t.messages)

  abbrev second_answer : Option String → Parsed
  second_answer none = Parsed.not_json
  second_answer (some content) = o.parse content

  -- A first answer that is no JSON is sent back once.
  abbrev parse_or_retry : List Message → String → Parsed → Parsed
  parse_or_retry base content Parsed.not_json =
      second_answer (o.final_call (base ++ o.retry_messages content))
  parse_or_retry base content Parsed.refused = Parsed.refused
  parse_or_retry base content (Parsed.verdict r) = Parsed.verdict r

  abbrev first_answer : List Message → Option String → Parsed
  first_answer base none = Parsed.not_json
  first_answer base (some content) = parse_or_retry base content (o.parse content)

  -- `OllamaToolClient.final_answer`, with `not_json` for each exception that it raises.
  unfoldable pub final_answer : List Message → Parsed
  final_answer messages =
      let base = messages ++ o.schema_instruction ∷ [] in first_answer base (o.final_call base)

  pub record InvestigationResult : Type 0 where
    pub resolution : ExceptionResolution
    pub investigation_log : List ToolCallRecord
    pub tool_rounds_used : ℕ
    pub stopped_reason : StoppedReason

  -- The default where the client raises, for the matcher's type.
  abbrev pub no_final_answer : Option String → ExceptionResolution
  no_final_answer matcher_type = record {
    exception_type = elim matcher_type [ none ↦ "unknown" | some name ↦ name ];
    policy_id = "NONE";
    root_cause = "[INVESTIGATION FAILED TO PRODUCE A FINAL ANSWER]";
    evidence_used = [];
    recommended_action = "Escalate for manual review -- agent call failed.";
    confidence = record { digits = 0; scale = 0 };
    sufficient_evidence = false;
  }

  abbrev pub failed_round : StoppedReason → Option String
  failed_round StoppedReason.model_finished = none
  failed_round StoppedReason.max_rounds_exceeded = none
  failed_round (StoppedReason.tool_round_failed error) = some error

  -- `min(confidence, 0.3)`
  abbrev capped : Decimal → Decimal
  capped x = if at_least_percent x 30 then record { digits = 3; scale = 1 } else x

  -- What a failed round makes of the model's claim of sufficient evidence.
  abbrev pub override : Option String → ExceptionResolution → ExceptionResolution
  override none r = r
  override (some error) r =
      if r.sufficient_evidence
      then record r {
        sufficient_evidence = false;
        confidence = capped r.confidence;
        root_cause = o.overridden_text r.root_cause error;
      }
      else r

  abbrev result_with : Rounds → ExceptionResolution → InvestigationResult
  result_with rounds r = record {
    resolution = override (failed_round rounds.stopped_reason) r;
    investigation_log = rounds.trace.investigation_log;
    tool_rounds_used = rounds.rounds_used;
    stopped_reason = rounds.stopped_reason;
  }

  -- `InvestigationResult(**raw)`, none where it raises a ValidationError. The code overrides the raw
  -- answer after a failed round before it validates; of an answer that validates it is the same.
  abbrev pub validated : Rounds → Option String → Parsed → Option InvestigationResult
  validated rounds matcher_type Parsed.not_json =
      some (result_with rounds (no_final_answer matcher_type))
  validated rounds matcher_type Parsed.refused = none
  validated rounds matcher_type (Parsed.verdict r) = some (result_with rounds r)

  -- investigate(report_row, ...), from the type of the row and the first messages.
  unfoldable pub investigate : Option String → List Message → Option InvestigationResult
  unfolding tool_rounds final_answer
  investigate matcher_type messages =
      let rounds =
        tool_rounds max_tool_rounds 0 (record { messages = messages; investigation_log = [] }) in
      validated rounds matcher_type (final_answer rounds.trace.messages)

  abbrev labels_from : ℕ → List ToolCallRecord → List String
  labels_from n [] = []
  labels_from n (entry ∷ log) = o.tool_label (suc n) ∷ labels_from (suc n) log

  -- tool_evidence_ids(result)
  abbrev pub tool_evidence_ids : InvestigationResult → List String
  tool_evidence_ids result =
      labels_from 0 result.investigation_log
      ++ map (λ entry. entry.tool_name) result.investigation_log
