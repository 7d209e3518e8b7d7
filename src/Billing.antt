-- ===== src/Billing.antt =====
-- Billing: the overage price schedule (apps/stripe/overage.py), the metering of overage units and
-- the throttle of organisations (apps/organizations_ext/tasks.py).
pub mod Overage
pub mod Meter
pub mod Throttle
