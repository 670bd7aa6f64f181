-- ===== src/Controller.antt =====
-- infrastructure/hyperloom/sglang-owner-adapter/controller.py: the controller of a campaign, which takes
-- jobs from the exchange, runs their owner and publishes the outcomes.
pub mod State
pub mod Calls
pub mod Owner
pub mod Step
pub mod Changes
pub mod Clearance
pub mod Attempts
pub mod Life
pub mod Turns
pub mod Serving
pub mod Parking
pub mod Grants
mod Tests
