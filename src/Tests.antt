-- ===== src/Tests.antt =====
-- Concrete inputs of the theorems, component by component.
pub mod Data
pub mod Commands
pub mod Serial
pub mod Loops
pub mod Outside
pub mod Startup
pub mod Sensors
