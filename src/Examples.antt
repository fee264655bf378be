-- ===== src/Examples.antt =====
-- The theorems at concrete inputs: a small board with one task, and some texts.
pub mod Automation
pub mod Moves
pub mod Texts
pub mod Workers
pub mod Files
pub mod Repairs
pub mod Reviews
pub mod Numbers
pub mod Filters
pub mod Verdicts
pub mod Arguments
pub mod Edits
pub mod Recoveries
