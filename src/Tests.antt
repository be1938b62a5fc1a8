-- ===== src/Tests.antt =====
-- The theorems applied to concrete data, and the parameters of the model instantiated.
mod ModelDigest
mod ReviewRuns
mod AgentRuns
mod MatchingRuns
mod BooksRuns
mod BulkRuns
mod CashRuns
mod ReverifyRuns
mod InvestigatorRuns
mod OverlapRuns
mod ToolRuns
mod SeedRuns
mod ListingRuns
mod CycleRuns
