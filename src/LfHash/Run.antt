-- ===== src/LfHash/Run.antt =====
-- The ways in which code of OurTable/src/LFHash.h ends: with a value, by `exit(0)`, or, where a
-- loop of the model is given less fuel than it needs, with no answer.
pub data Exit : Type 0 where
  insertion_failure : Exit  -- no free slot in the probing range
  resize : Exit  -- no slot to move in `Relocate`
  no_progress : Exit  -- `prevSlot == SlotIndex`
  rehashing : Exit  -- no free slot in `BucketInsert`

pub data Run {ℓ} (A : Type ℓ) : Type ℓ where
  ok : A → Run A
  exited : Exit → Run A
  out_of_fuel : Run A

infixl 5 ◌>>=◌
abbrev pub ◌>>=◌ {ℓ κ} : {A : Type ℓ} {B : Type κ} → Run A → (A → Run B) → Run B
ok a >>= f = f a
exited e >>= f = exited e
out_of_fuel >>= f = out_of_fuel
