-- ===== src/Tests.antt =====
-- The theorems at concrete inputs, and runs of the model.
mod DiffTests
mod CommitTests
mod MergeTests
mod ObjectTests
mod StoreTests
mod FileMergeTests
mod GcTests
mod IndexTests
mod ServerTests
mod ConflictTests
mod BlameTests
