-- ===== src/Tests/ReverifyRuns.antt =====
-- POST /api/reverify on two cases: the report calls one clean, and the other has its old exception.
use close_control.Base.{◌≡◌, refl, String, Option, none, some, [], ◌∷◌, false, All}
use close_control.Tests.ModelDigest.{model_digest}
use close_control.Tests.BulkRuns.{small_case, of_id}
use close_control.Review.Cases.{CaseRow, get_reviews, derive_status}
use close_control.Review.Store.{Db}
use close_control.Review.Store.Serve.{initial}
use close_control.Review.Reverify.{Report, reverify}
use close_control.Review.Reverify.Closing.{IsClosed}
use close_control.Review.Reverify.Run.{to_close, reverify-closes, reverify-others}

abbrev late_case : CaseRow
late_case = record small_case {
  transaction_id = "TXN2";
  matcher_exception_type = some "unexplained_shortage";
}

abbrev queue : Db model_digest.Hash
queue = initial (small_case ∷ late_case ∷ [])

abbrev report : Report
report = ("TXN1", none) ∷ ("TXN2", some "unexplained_shortage") ∷ []

abbrev note : Option String → String
note original = "the transaction is now fully clean"

reverify-closes_example :
    ((reverify model_digest of_id note report false queue).0.closed
      ≡ to_close model_digest of_id note report queue)
    × (((reverify model_digest of_id note report false queue).0.skipped ≡ [])
        × All
            (IsClosed model_digest (reverify model_digest of_id note report false queue).1)
            (to_close model_digest of_id note report queue))
reverify-closes_example =
    reverify-closes model_digest of_id note report queue (refl, (refl, tt)) (refl, (refl, tt))

-- It is the first case that is closed.
first_is_closed : to_close model_digest of_id note report queue ≡ "TXN1" ∷ []
unfolding derive_status get_reviews
first_is_closed = refl

reverify-others_example :
    get_reviews "TXN2" (reverify model_digest of_id note report false queue).1.reviews
    ≡ get_reviews "TXN2" queue.reviews
unfolding derive_status get_reviews
reverify-others_example =
    reverify-others model_digest of_id note report queue "TXN2" (refl, (refl, tt))
      (refl, (refl, tt)) refl
