-- ===== src/Upload.antt =====
-- Models frontend/src/adapters/apiService/uploadAttachments.ts: files that go up in chunks, with retries,
-- progress reports and the clean-up. What comes over the network is a list of answers in the order
-- in which they are awaited; where it ends, the upload is still waiting. A timer is present by
-- whether it has fired.
pub mod Session
pub mod Attempt
pub mod Call
mod Keeping
pub mod Reports
pub mod Received
pub mod Retries
pub mod Cleanup
