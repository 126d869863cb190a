-- ===== src/Access.antt =====
-- The access decision of the `auth-file` module: from a credential to a granted or denied target.
pub mod Validity
pub mod Profile
pub mod Mapper
pub mod Source
pub mod Instance
