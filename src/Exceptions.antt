-- ===== src/Exceptions.antt =====
-- The exceptions of include/yellowstone, and what a call that may throw one comes to.
pub data Exception : Type 0 where
  invalid_argument : Exception
  logic_error : Exception
  length_error : Exception
  out_of_range : Exception
  overflow_error : Exception
  other_error : Exception

pub data Result {ℓ} (A : Type ℓ) : Type ℓ where
  ok : A → Result A
  err : Exception → Result A
