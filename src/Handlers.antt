-- ===== src/Handlers.antt =====
-- internal/transport/http/handlers: the answers of the service to the requests of its clients. A
-- request is given by what gin has read from it: the path and query parameters as texts, and the
-- body as gin has bound it, `none` where the binding fails. Logging and the headers are left out.
pub mod Reply
pub mod Told
pub mod Status
pub mod Cancel
pub mod Confirm
pub mod Restart
pub mod Config
pub mod Listing
pub mod Limits
pub mod Admin
pub mod Upload
pub mod Download
pub mod Exports
pub mod Template
pub mod Stats
