-- ===== src/Mutations.antt =====
-- graph/mutations.go: the resolvers of the mutations, from the claims of the caller to the
-- repositories. A resolver object around a row is the row.
pub mod Selling
pub mod Ownership
pub mod Stocking
pub mod Registering
pub mod Pushing
pub mod Access
pub mod Login
