-- ===== src/LockFreeQueue/Writes.antt =====
-- Writes to memory at one address, and equality of addresses.
use game_database_server.Prelude.{
  ℕ, suc, ◌<◌, ◌≡◌, ◌≢◌, refl, ◌⊎◌, true, false, Option, ◌==◌, ==_iff, arith,
}
use game_database_server.LockFreeQueue.Memory.{store_at}

pub ==_of_eq : (a b : ℕ) → a ≡ b → (a == b) ≡ true
==_of_eq a b e = (==_iff a b).1 e

pub ==_of_ne : (a b : ℕ) → a ≢ b → (a == b) ≡ false
==_of_ne a b n = ground arith

pub ne_of_== : (a b : ℕ) → (a == b) ≡ false → a ≢ b
ne_of_== a b h = ground arith

pub store_at_other :
    {B : Type 0} (a b : ℕ) (v : Option B) (f : ℕ → Option B) → b ≢ a → store_at a v f b ≡ f b
store_at_other a b v f n = rw (==_of_ne b a n) refl

pub store_at_same : {B : Type 0} (a : ℕ) (v : Option B) (f : ℕ → Option B) → store_at a v f a ≡ v
store_at_same a v f = rw (==_of_eq a a refl) refl

pub last_or_before : (a end : ℕ) → a < suc end → (a ≡ end) ⊎ (a < end)
last_or_before a end h = ground arith
