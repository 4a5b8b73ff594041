-- ===== src/State/Method.antt =====
-- The state of a call that a method of a getter, an updater or a deleter makes.

-- What a method of a getter, an updater or a deleter reads and writes: the world, the message
-- that the adapter and its caller both point to, and the receiver.
pub record Call (W P R : Type 0) : Type 0 where
  pub world : W
  pub shared : P
  pub self : R
