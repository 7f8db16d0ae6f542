-- ===== src/Web.antt =====
-- frontend/src: the web site.
pub mod Api
pub mod Slug
pub mod Amounts
pub mod Builder
pub mod CheckIn
pub mod Alerts
pub mod Calendar
pub mod Automations
pub mod Entry
pub mod Roster
pub mod SiteConfig
pub mod EventEditor
pub mod ScheduleEditor
pub mod CategoriesEditor
pub mod Dashboard
pub mod RunnerProfile
