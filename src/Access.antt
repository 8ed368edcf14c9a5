-- ===== src/Access.antt =====
-- Users, roles and permissions.
pub mod Rows
pub mod Catalog
pub mod Roles
pub mod Users
pub mod Bootstrap
pub mod Admins
pub mod Login
pub mod FirstAdmin
pub mod Lists
pub mod Permits
pub mod Membership
