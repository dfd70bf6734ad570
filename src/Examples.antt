-- ===== src/Examples.antt =====
-- Concrete work items, plans and runs, on which the operations are run and the theorems are applied.
pub mod Deliveries
pub mod Items
pub mod Allocations
pub mod Plans
pub mod Patches
pub mod Retries
pub mod Scopes
pub mod Schemas
pub mod Serials
pub mod Batches
pub mod Runs
pub mod Catalogues
pub mod Policies
pub mod Leasing
pub mod Approvals
