-- ===== src/Wallet/Billing/Reserve.antt =====
-- What a reservation guarantees, and what a daily limit does to it.
