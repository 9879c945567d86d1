-- ===== src/Boxoffice/Clock.antt =====
-- The head of the router's loop, and Boxoffice::updateTimestamp, on the parts of the state that they use.
use flocksy.Prelude.{ℕ, ◌+◌, ◌-◌, ◌%◌, ◌^◌, List, Result, ok, ◌>>=◌}
use flocksy.Constants.{f_generic_hash_len}
use flocksy.Bytes.{be64toh}
use flocksy.Stream.{Stream, open_stream, read_int, read, seek_cur}
use flocksy.Boxoffice.Nodes.{Node, NodeMap, update_node}

-- `*sstream >> msg_type >> msg_signal` on a new stream, given the values of the last round.
unfoldable pub read_signal : ℕ × ℕ → List ℕ → ℕ × ℕ × Stream
read_signal (before_type, before_signal) text =
    let (msg_type, s) = read_int before_type (open_stream text) in
    let (msg_signal, s') = read_int before_signal s in (msg_type, msg_signal, s')

-- What updateTimestamp writes to the sender's entry: both differences are taken in uint16_t.
abbrev pub stamp : ℕ → ℕ → Node → Node
stamp sent now node = record node {
  last_timestamp = sent;
  offset = (now % 2 ^ 16 + 2 ^ 16 - sent % 2 ^ 16) % 2 ^ 16;
}

-- updateTimestamp: the sender's hash, the nodes with its entry stamped, and the stream behind.
unfoldable pub update_timestamp : ℕ → NodeMap → Stream → Result (List ℕ × NodeMap × Stream)
update_timestamp now subscribers s = do
  (node_hash, s₁) ← read f_generic_hash_len s
  (node_timestamp, s₂) ← read 8 (seek_cur 1 s₁)
  ok (node_hash, update_node node_hash (stamp (be64toh node_timestamp) now) subscribers, s₂)
