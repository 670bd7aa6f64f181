-- ===== src/Tools.antt =====
-- apps/base/shared-api/service_tools.py: the image generation behind the gateway, one at a time, with a
-- marker on disk that outlives the process.
pub mod State
pub mod Upstream
pub mod Requests
pub mod Profile
pub mod Image
pub mod Retrieval
pub mod Mcp
pub mod Browser
pub mod Credentials
pub mod Passages
pub mod Sessions
pub mod Account
pub mod Settled
pub mod Paid
pub mod Safety
pub mod Recovery
pub mod Sizes
mod Tests
mod McpTests
