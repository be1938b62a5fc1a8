-- ===== src/Matching/Report/Priority.antt =====
-- Which signal of a payment wins in matching/report.py, and that none is lost.
use mathlib.Core.Path.{subst}
use close_control.Base.{
  ◌≡◌, refl, sym, ap, ◌∙◌, Option, none, some, List, [], ◌∷◌, ◌++◌, true, false, arith, All, ==_iff,
  Bool-cases, Option-cases, inl, inr,
}
use close_control.Matching.Engine.{MatchResult}
use close_control.Matching.Exceptions.{ExceptionType, code, signalled}
use close_control.Matching.LedgerCheck.{GatewayRow, LedgerRow, LedgerCheck}
use close_control.Matching.Report.{exception_priority, first_present, build_row}

-- `e` is signalled, and nothing that stands before it in the order is.
pub record Wins (order signals : List ExceptionType) (e : ExceptionType) : Type 0 where
  pub before : List ExceptionType
  pub after : List ExceptionType
  pub split : order ≡ before ++ e ∷ after
  pub present : signalled signals e ≡ true
  pub first : All (λ c. signalled signals c ≡ false) before

first_present-Wins :
    (order signals : List ExceptionType) (e : ExceptionType)
    → first_present order signals ≡ some e
    → Wins order signals e
unfolding first_present
first_present-Wins [] signals e h = absurd (ground arith)
first_present-Wins (c ∷ order) signals e h = elim (Bool-cases (signalled signals c)) [
  | inl h_yes ↦
      subst (Wins (c ∷ order) signals) (ap (λ o. elim o [ none ↦ c | some d ↦ d ]) (rw h_yes at h))
        (record { before = []; after = order; split = refl; present = h_yes; first = tt })
  | inr h_no ↦
      let later = first_present-Wins order signals e (rw h_no at h) in
      record {
        before = c ∷ later.before;
        after = later.after;
        split = ap (λ rest. c ∷ rest) later.split;
        present = later.present;
        first = (h_no, later.first);
      }
]

first_present-none :
    (order signals : List ExceptionType)
    → first_present order signals ≡ none
    → All (λ c. signalled signals c ≡ false) order
unfolding first_present
first_present-none [] signals h = tt
first_present-none (c ∷ order) signals h = elim (Bool-cases (signalled signals c)) [
  | inl h_yes ↦ absurd (ground (arith, rw h_yes at h))
  | inr h_no ↦ (h_no, first_present-none order signals (rw h_no at h))
]

-- Two types are told apart by their codes.
same_code :
    (signals : List ExceptionType) (c e : ExceptionType)
    → code c ≡ code e
    → signalled signals c ≡ signalled signals e
same_code [] c e h = refl
same_code (s ∷ signals) c e h = ground (arith, h, same_code signals c e h)

All-signalled :
    (signals order : List ExceptionType) (e : ExceptionType)
    → All (λ c. signalled signals c ≡ false) order
    → signalled order e ≡ true
    → signalled signals e ≡ false
All-signalled signals [] e h s = absurd (ground arith)
All-signalled signals (c ∷ order) e h s = elim (Bool-cases (signalled order e)) [
  | inl later ↦ All-signalled signals order e h.1 later
  | inr neither ↦ sym (same_code signals c e (ground (arith, ==_iff (code e) (code c)))) ∙ h.0
]

is_listed : (e : ExceptionType) → signalled exception_priority e ≡ true
is_listed ExceptionType.no_gateway_record_found = refl
is_listed ExceptionType.duplicate_payment_detected = refl
is_listed ExceptionType.signature_verification_failed = refl
is_listed ExceptionType.chargeback_received = refl
is_listed ExceptionType.held_for_risk_review = refl
is_listed ExceptionType.deemed_success_ambiguous = refl
is_listed ExceptionType.settlement_bank_posting_not_found = refl
is_listed ExceptionType.missing_bank_reference = refl
is_listed ExceptionType.bank_overage = refl
is_listed ExceptionType.partial_refund = refl
is_listed ExceptionType.unexplained_shortage = refl
is_listed ExceptionType.ambiguous_bank_match = refl
is_listed ExceptionType.loan_recovery_deduction = refl
is_listed ExceptionType.fee_variance = refl
is_listed ExceptionType.timing_lag_beyond_t2 = refl

none_signalled :
    (signals : List ExceptionType)
    → All (λ c. signalled signals c ≡ false) exception_priority
    → signals ≡ []
none_signalled [] h = refl
none_signalled (s ∷ signals) h = absurd (
    ground (
      arith,
      ==_iff (code s) (code s),
      All-signalled (s ∷ signals) exception_priority s h (is_listed s),
    ))

-- The final exception of a payment with these signals.
abbrev pub IsFinal : Option ExceptionType → List ExceptionType → Type 0
IsFinal none signals = signals ≡ []
IsFinal (some e) signals = Wins exception_priority signals e

pub first_present-IsFinal :
    (signals : List ExceptionType) → IsFinal (first_present exception_priority signals) signals
first_present-IsFinal signals = elim (Option-cases (first_present exception_priority signals)) [
  | inl h ↦
      rw (h, IsFinal) (none_signalled signals (first_present-none exception_priority signals h))
  | inr (e, h) ↦ rw (h, IsFinal) (first_present-Wins exception_priority signals e h)
]

-- A row of the report is without an exception only when the payment has no signal, and else its
-- final exception is the first of its signals in the order of EXCEPTION_PRIORITY.
pub build_row-IsFinal :
    (results : List MatchResult) (gateway : List GatewayRow) (ledger : List LedgerRow)
    (lc : LedgerCheck)
    → IsFinal
        (build_row results gateway ledger lc).final_exception_type
        (build_row results gateway ledger lc).all_signals
unfolding build_row
build_row-IsFinal results gateway ledger lc =
    first_present-IsFinal (build_row results gateway ledger lc).all_signals
