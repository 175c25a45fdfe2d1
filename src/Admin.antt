-- ===== src/Admin.antt =====
-- The admins' decisions on transfers (admin/transfers/, admin/wires/).
pub mod Refunded
pub mod Review
pub mod Wires
