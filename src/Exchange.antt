-- ===== src/Exchange.antt =====
-- lib/workstation/hyperloom_exchange.py and hyperloom_exchange_host.py: the bounded exchange of jobs
-- between the optimizer and the owner's controller.
pub mod Terms
pub mod Requests
pub mod Store
pub mod Jobs
pub mod Config
pub mod Host
pub mod Validity
pub mod Claims
pub mod Outcomes
pub mod Reach
pub mod Once
pub mod Board
pub mod Snapshots
pub mod Replies
pub mod Wait
pub mod Retain
pub mod Submit
pub mod Write
pub mod Submission
pub mod Prepare
pub mod Delivery
pub mod Handover
pub mod Carried
pub mod Publish
pub mod Answer
pub mod Tests
pub mod SubmitTests
