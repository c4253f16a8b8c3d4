-- ===== src/Controller.antt =====
-- The controller's state machine (core/controller/c/core/controller.c).
pub mod Names
pub mod Types
pub mod Routes
pub mod Handlers
pub mod Reconcile
pub mod Queue
pub mod System
pub mod WellFormed
