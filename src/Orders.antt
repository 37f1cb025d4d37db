-- ===== src/Orders.antt =====
-- Orders (src/features/orders): the refund math, and the void and refund actions.
pub mod Refund
pub mod Actions
