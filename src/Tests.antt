-- ===== src/Tests.antt =====
-- Runs of the models on small inputs, and the theorems at inputs that meet their hypotheses.
mod Toy
mod Platform
mod Loading
mod Flushing
mod Caching
pub mod Locking
pub mod Consuming
pub mod Searching
mod Storing
mod Paging
mod Binding
mod People
mod Saving
