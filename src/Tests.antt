-- ===== src/Tests.antt =====
-- Concrete runs, and each theorem with hypotheses at an input where they hold.
mod Data
mod Allowance
mod Service
mod Counting
mod Encoding
mod Client
mod Share
mod Routes
mod Grants
