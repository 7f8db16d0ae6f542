-- ===== src/Mobile/LiveActivity/PushToken/Examples.antt =====
-- The theorems of the wait for a token at concrete inputs.
