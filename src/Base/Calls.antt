-- ===== src/Base/Calls.antt =====
-- What a call gives that may throw: a value or an error.

pub data Try (E A : Type 0) : Type 0 where
  returned : A → Try E A
  thrown : E → Try E A
