-- ===== src/Mobile/LiveActivity.antt =====
-- mobile/services/liveActivity: following a race on the lock screen of the phone.
pub mod Content
pub mod Bridge
pub mod PushToken
pub mod Service
mod Examples
