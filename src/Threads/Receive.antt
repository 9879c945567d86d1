-- ===== src/Threads/Receive.antt =====
-- src/constants.cpp: the poll wrappers. A socket is ready with a message or not; all that is ready is
-- written into one stream.
use flocksy.Prelude.{ℕ, List, [], ◌∷◌, ◌++◌, Option, none, some}

-- A zmqpp::message has a first part and perhaps more.
pub record Message : Type 0 where
  pub head : List ℕ
  pub more : List (List ℕ)

concat : List (List ℕ) → List ℕ
concat [] = []
concat (xs ∷ xss) = xs ++ concat xss

repeat : List ℕ → List (List ℕ) → List ℕ
repeat xs [] = []
repeat xs (ys ∷ yss) = xs ++ repeat xs yss

-- The loop over all parts, and `z_msg.get(0)`.
unfoldable pub all_parts : Option Message → List ℕ
unfolding concat
all_parts none = []
all_parts (some m) = m.head ++ concat m.more

unfoldable pub first_part : Option Message → List ℕ
first_part none = []
first_part (some m) = m.head

-- The loop of s_recv_noblock over the second socket, which writes the first part once for each part.
unfoldable pub first_part_repeated : Option Message → List ℕ
unfolding repeat
first_part_repeated none = []
first_part_repeated (some m) = m.head ++ repeat m.head m.more

-- s_recv on a socket and the broadcast: the broadcast is read only if the socket is not ready.
unfoldable pub s_recv : Option Message → Option Message → List ℕ
unfolding all_parts first_part
s_recv (some m) broadcast = all_parts (some m)
s_recv none broadcast = first_part broadcast

-- s_recv with a heartbeat socket, and with a dispatch socket too: every ready one is read.
unfoldable pub s_recv₃ : Option Message → Option Message → Option Message → List ℕ
unfolding all_parts first_part
s_recv₃ socket broadcast heartbeat =
    all_parts socket ++ first_part broadcast ++ first_part heartbeat

unfoldable pub s_recv₄ : Option Message → Option Message → Option Message → Option Message → List ℕ
unfolding all_parts first_part
s_recv₄ socket broadcast heartbeat dispatch =
    all_parts socket ++ first_part broadcast ++ first_part heartbeat ++ first_part dispatch

-- s_recv_noblock: `none` when the poll timed out.
unfoldable pub s_recv_noblock : Option Message → Option Message → Option Message → Option (List ℕ)
unfolding all_parts first_part first_part_repeated
s_recv_noblock none none none = none
s_recv_noblock socket socket₂ broadcast =
    some (all_parts socket ++ first_part_repeated socket₂ ++ first_part broadcast)
