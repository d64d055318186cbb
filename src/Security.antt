-- ===== src/Security.antt =====
-- The daemons that decide about privileges and users, under security/.
pub mod Cynara
pub mod Auth
pub mod Smack
pub mod Clients
pub mod Tests
