-- ===== src/Access.antt =====
-- internal/app: who may do what. Roles, users and monitor scopes.
pub mod Roles
pub mod Users
