-- ===== src/Boxoffice/Nodes.antt =====
-- node_map of include/constants.hpp: the nodes that the boxoffice listens to, by the hash of their key.
-- The order of an unordered_map is unspecified; flocksy only asks for all nodes or for one.
pub mod Replies
use flocksy.Prelude.{ℕ, Bool, true, false, ◌&&◌, List, [], ◌∷◌, if◌then◌else◌}
use flocksy.Bytes.{bytes_eq}

pub record Node : Type 0 where
  pub endpoint : List ℕ
  pub f_subtype : ℕ
  pub last_timestamp : ℕ
  pub offset : ℕ
  pub public_key : List ℕ
  pub uid : List ℕ
  pub replied : Bool

abbrev pub NodeMap : Type 0
NodeMap = List (List ℕ × Node)

-- What operator[] puts at a key that is not there.
abbrev pub default_node : Node
default_node = record {
  endpoint = [];
  f_subtype = 0;
  last_timestamp = 0;
  offset = 0;
  public_key = [];
  uid = [];
  replied = false;
}

-- `subscribers[hash]` as a value, and `subscribers[hash].… = …`.
unfoldable pub node_at : List ℕ → NodeMap → Node
node_at hash [] = default_node
node_at hash ((key, node) ∷ nodes) = if bytes_eq key hash then node else node_at hash nodes

unfoldable pub update_node : List ℕ → (Node → Node) → NodeMap → NodeMap
update_node hash change [] = (hash, change default_node) ∷ []
update_node hash change ((key, node) ∷ nodes) =
    if bytes_eq key hash
    then (key, change node) ∷ nodes
    else (key, node) ∷ update_node hash change nodes

-- The loop that stops at a node which has not replied came to the end.
unfoldable pub all_replied : NodeMap → Bool
all_replied [] = true
all_replied ((key, node) ∷ nodes) = node.replied && all_replied nodes

unfoldable pub clear_replied : NodeMap → NodeMap
clear_replied [] = []
clear_replied ((key, node) ∷ nodes) = (key, record node { replied = false }) ∷ clear_replied nodes

abbrev pub mark_replied : List ℕ → NodeMap → NodeMap
mark_replied hash = update_node hash (λ node. record node { replied = true })
