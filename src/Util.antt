-- ===== src/Util.antt =====
-- pkg/util: helpers that the controller shares.
pub mod CrdChecker
