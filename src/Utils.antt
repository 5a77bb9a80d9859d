-- ===== src/Utils.antt =====
-- utils/*.go: helpers of the other packages.
pub mod Lazy
