-- ===== src/Search.antt =====
-- apps/base/shared-api/web_search.py: web research under a request budget.
pub mod Policy
pub mod Budget
pub mod Response
pub mod Ledger
pub mod Pages
pub mod Results
pub mod Bounds
pub mod Status
mod Tests
mod PagesTests
