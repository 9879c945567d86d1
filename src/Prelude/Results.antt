-- ===== src/Prelude/Results.antt =====
-- The result of code that may fail: a value, or a fault that ends the thread. `undefined` is a read of
-- memory that the program has not set; the others are the exceptions that flocksy lets escape.

pub data Fault : Type 0 where
  undefined out_of_range runtime_error range_error filesystem_error : Fault

pub data Result {ℓ} (A : Type ℓ) : Type ℓ where
  ok : A → Result A
  fault : Fault → Result A

infixl 5 ◌>>=◌ ◌>>◌
abbrev pub ◌>>=◌ {ℓ κ} : {A : Type ℓ} {B : Type κ} → Result A → (A → Result B) → Result B
ok a >>= f = f a
fault x >>= f = fault x

abbrev pub ◌>>◌ {ℓ κ} : {A : Type ℓ} {B : Type κ} → Result A → Result B → Result B
m >> k = m >>= λ _. k
