-- ===== src/Examples.antt =====
-- The theorems at concrete documents and states, module by module of the program.
mod ChainRuns
mod SelectorRuns
mod EnvelopeRuns
mod SdkRuns
mod CheckRuns
mod LibraryRuns
mod ThrottleRuns
mod StoreRuns
mod PublishRuns
mod PruneRuns
mod CasRuns
mod DirectoryRuns
mod SemverRuns
mod FilenameRuns
mod PlanRuns
