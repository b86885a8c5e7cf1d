-- ===== src/Tests/Registries.antt =====
-- A registry that replaces a node.
use flow_proxy.Prelude.{◌≡◌, true, false, List, [], ◌∷◌, none, some, codes}
use flow_proxy.Nodes.Sorting.{Node, IsAscending}
use flow_proxy.Nodes.Store.{normalize_id, normalize_node, merged, get_node}
use flow_proxy.Nodes.Registry.{Change, upserted, heartbeat, registry, upsert-get}

abbrev follower : Node
follower = record {
  id = codes " B ";
  name = [];
  endpoint = codes "http://b";
  tags = codes "x" ∷ codes "X" ∷ [];
  is_enabled = true;
  mode = [];
  last_heartbeat_at = 0;
  created_at = 0;
  updated_at = 0;
}

abbrev history : List Change
history = upserted 5 true follower ∷ heartbeat 3 false (codes "a") [] [] none true ∷ []

upsert-get_example :
    let n =
      merged 9
        (record (normalize_node 9 follower) { updated_at = 9 })
        (get_node follower.id (registry history)) in
    IsAscending (registry (upserted 9 true follower ∷ history))
    × (get_node (codes "b") (registry (upserted 9 true follower ∷ history)) ≡ some n)
unfolding normalize_id
upsert-get_example = upsert-get history 9 true follower (codes "b")
