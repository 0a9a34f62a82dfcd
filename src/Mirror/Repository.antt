-- ===== src/Mirror/Repository.antt =====
-- backend/app/external_mirrors/repository.py: the table of mirrors with its audit log. A method is
-- a function from the repository to its outcome and the new repository. The readings of the clock
-- and the tokens that are drawn at random are arguments: `now` is what the row gets, `logged_at`
-- what the audit entry gets. JSON texts (scopes, details) are the values that they hold.
pub mod Names
pub mod Model
pub mod Rows
pub mod Create
pub mod Methods
pub mod Bookkeeping
pub mod Update
pub mod Invariant
