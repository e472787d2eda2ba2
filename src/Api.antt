-- ===== src/Api.antt =====
-- The HTTP interface: http, middlewares/welcome.go and middlewares/v1/web.go.
pub mod Writer
pub mod Errors
pub mod Handlers
pub mod Routes
pub mod Answers
pub mod Pages
pub mod Atomic
pub mod Requests
pub mod History
pub mod Journey
pub mod Recorder
pub mod Logger
pub mod Welcome
pub mod Permissions
pub mod Permitted
pub mod Verified
