-- ===== src/Webhook.antt =====
-- pkg/webhook: the admission webhook, its rules by path, and its registration with the API server.
pub mod PathEscape
pub mod Handler
pub mod Server
pub mod Registration
