-- ===== src/Update.antt =====
-- crates/ket-update: releases, how urgent they are, and what a server tells its apps.
pub mod Release
pub mod Header
pub mod Policy
