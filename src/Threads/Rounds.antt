-- ===== src/Threads/Rounds.antt =====
-- What a round of a thread's loop comes to.
use flocksy.Prelude.{ℕ, List}

pub data Round (S : Type 0) : Type 0 where
  stop : Round S
  next : S → List ℕ → Round S
