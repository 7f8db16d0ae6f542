-- ===== src/Mobile/Session.antt =====
-- mobile/services/auth/session.ts: the class `Session`. Its fields are the record `World`, with what
-- it shares with the rest of the program: the stored refresh token and what other code can observe.
mod State
mod Identity
mod Operations
mod Request
pub mod Alone
pub mod Queue
mod Examples
pub use State.*
unfoldable pub use Identity.*
unfoldable pub use Operations.*
unfoldable pub use Request.*
