-- ===== src/Routing.antt =====
-- reverso/proxy/profile_routing.py: requests under a provider profile's path, sent on as ordinary
-- requests for that profile's models.
pub mod Models
pub mod Workspace
pub mod Bodies
pub mod Requests
