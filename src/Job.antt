-- ===== src/Job.antt =====
-- internal/domain/job: the job entity, its values and its lifecycle.
pub mod Id
pub mod Kind
pub mod Status
pub mod Payload
pub mod Entity
pub mod Lifecycle
pub mod Named
pub mod Valid
pub mod Transitions
pub mod History
pub mod Attempts
pub mod Getters
