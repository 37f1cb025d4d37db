-- ===== src/Register.antt =====
-- The register: what an order costs (src/features/register).
pub mod Pricing
pub mod Tender
pub mod Resolve
pub mod Approval
pub mod Checkout
pub mod Tests
