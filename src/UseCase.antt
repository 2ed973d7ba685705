-- ===== src/UseCase.antt =====
-- internal/application: the ports and the three use cases over them.
pub mod Action
pub mod Ports
pub mod Observer
pub mod CreateJob
pub mod GetJob
pub mod ProcessJob
pub mod System
pub mod Constructors
