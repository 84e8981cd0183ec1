-- ===== src/History.antt =====
-- Histories of requests: the state and the responses over a sequence of requests.
pub mod Keeps
pub mod Parts
pub mod Logins
pub mod Sessions
pub mod Requests
pub mod Absence
pub mod SingleUse
pub mod Accounts
pub mod Origins
pub mod Sends
pub mod Replies
pub mod SessionReplies
pub mod RouteReplies
pub mod Headers
