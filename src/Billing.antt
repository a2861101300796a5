-- ===== src/Billing.antt =====
-- internal/billing: prices, credit accounts, usage, invoices, plans and allowances.
pub mod Sku
pub mod Account
pub mod Usage
pub mod Invoice
pub mod Plan
pub mod Allowance
mod Examples
