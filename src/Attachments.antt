-- ===== src/Attachments.antt =====
-- runtime/src/attachments.rs: the files a message carries, admitted, committed by digest, shown to
-- the provider and charged.
pub mod Types
pub mod Admission
pub mod Projection
pub mod Charges
