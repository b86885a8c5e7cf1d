-- ===== src/Nodes/Store.antt =====
-- `Store` of internal/node/store.go. The mutex makes each operation one step, during which the clock
-- reads the same; whether the blob can be saved is given. A registry is the list of its nodes.
use flow_proxy.Prelude.{
  ℕ, ◌-◌, Bool, false, not, ◌||◌, List, [], ◌∷◌, ◌++◌, Option, none, some, Text, codes, text_eq,
  is_empty, member, if◌then◌else◌, keep, length, leb, ◌==◌, trim_space, to_lower,
}
use flow_proxy.Nodes.Sorting.{Node, find, sort_nodes, sort_texts}

unfoldable pub normalize_id : Text → Text
unfolding trim_space to_lower
normalize_id raw =
    let value = to_lower (trim_space raw) in if is_empty value then codes "default" else value

unfoldable pub normalize_name : Text → Text
unfolding trim_space
normalize_name raw =
    let value = trim_space raw in if is_empty value then codes "Default Node" else value

-- The loop of `normalizeStringList` with the keys that were seen.
unfoldable pub fresh_tags : List Text → List Text → List Text
unfolding trim_space to_lower
fresh_tags seen [] = []
fresh_tags seen (item ∷ items) =
    let value = trim_space item in
    let kept = fresh_tags (to_lower value ∷ seen) items in
    let rest = fresh_tags seen items in
    if is_empty value || member (to_lower value) seen then rest else value ∷ kept

unfoldable pub normalize_string_list : List Text → List Text
unfolding fresh_tags sort_texts
normalize_string_list items = sort_texts (fresh_tags [] items)

unfoldable pub normalize_node : ℕ → Node → Node
unfolding normalize_id normalize_name normalize_string_list trim_space
normalize_node now input =
    let created = if input.created_at == 0 then now else input.created_at in
    record {
      id = normalize_id input.id;
      name = normalize_name input.name;
      endpoint = trim_space input.endpoint;
      tags = normalize_string_list input.tags;
      is_enabled = input.is_enabled;
      mode = (if is_empty (trim_space input.mode) then codes "pseudo" else trim_space input.mode);
      last_heartbeat_at = input.last_heartbeat_at;
      created_at = created;
      updated_at = (if input.updated_at == 0 then created else input.updated_at);
    }

-- `s.nodes[i] = item` at the first node of that name.
unfoldable pub replace_node : Node → List Node → List Node
replace_node n [] = []
replace_node n (x ∷ xs) =
    let rest = replace_node n xs in if text_eq x.id n.id then n ∷ xs else x ∷ rest

-- The node that is added, or put in place of the one with its name.
unfoldable pub place_node : Node → List Node → List Node
unfolding find replace_node sort_nodes
place_node n xs = elim (find n.id xs) [
  | none ↦ sort_nodes (xs ++ n ∷ [])
  | some old ↦ replace_node n xs
]

unfoldable pub get_node : Text → List Node → Option Node
unfolding find normalize_id
get_node id xs = find (normalize_id id) xs

-- What an upsert stores, with the node that has the name already.
unfoldable pub merged : ℕ → Node → Option Node → Node
merged now n none = record n {
  last_heartbeat_at = if n.last_heartbeat_at == 0 then now else n.last_heartbeat_at;
}
merged now n (some old) = record n {
  created_at = old.created_at;
  last_heartbeat_at =
      if n.last_heartbeat_at == 0 then old.last_heartbeat_at else n.last_heartbeat_at;
}

-- The results come with whether the blob was saved; the registry has changed in either case.
unfoldable pub upsert : ℕ → Bool → Node → List Node → Option Node × List Node
unfolding normalize_node find merged place_node
upsert now saves input xs =
    let normalized : Node = record (normalize_node now input) { updated_at = now } in
    let n = merged now normalized (find normalized.id xs) in
    (if saves then some n else none, place_node n xs)

unfoldable pub delete_node : Bool → Text → List Node → Bool × List Node
unfolding normalize_id
delete_node saves id xs =
    let rest = keep (λ x. not (text_eq x.id (normalize_id id))) xs in
    if length rest == length xs then (false, rest) else (saves, rest)

-- A name, an endpoint and tags that are left out keep the old ones.
unfoldable pub touched : ℕ → Text → Text → Option (List Text) → Bool → Node → Node
unfolding trim_space normalize_string_list
touched now name endpoint tags enabled old = record old {
  name = if is_empty (trim_space name) then old.name else trim_space name;
  endpoint = if is_empty (trim_space endpoint) then old.endpoint else trim_space endpoint;
  tags = elim tags [ none ↦ old.tags | some ts ↦ normalize_string_list ts ];
  is_enabled = enabled;
  mode = codes "pseudo";
  last_heartbeat_at = now;
  updated_at = now;
}

abbrev some_or_empty : Option (List Text) → List Text
some_or_empty none = []
some_or_empty (some ts) = ts

unfoldable pub touch_heartbeat :
    ℕ → Bool → Text → Text → Text → Option (List Text) → Bool → List Node → Option Node × List Node
unfolding normalize_id find touched normalize_node place_node
touch_heartbeat now saves id name endpoint tags enabled xs =
    let fresh = normalize_node now (record {
      id = normalize_id id;
      name = name;
      endpoint = endpoint;
      tags = some_or_empty tags;
      is_enabled = enabled;
      mode = codes "pseudo";
      last_heartbeat_at = now;
      created_at = now;
      updated_at = now;
    }) in
    let n : Node = elim (find (normalize_id id) xs) [
      | none ↦ fresh
      | some old ↦ touched now name endpoint tags enabled old
    ] in
    (if saves then some n else none, place_node n xs)

unfoldable pub normalize_nodes : ℕ → List Node → List Node
unfolding normalize_node
normalize_nodes now [] = []
normalize_nodes now (x ∷ xs) = normalize_node now x ∷ normalize_nodes now xs

-- `ReplaceAll`, and `load` on what it read.
unfoldable pub replace_all : ℕ → List Node → List Node
unfolding normalize_nodes sort_nodes
replace_all now xs = sort_nodes (normalize_nodes now xs)

pub data NodeStatus : Type 0 where
  online offline disabled : NodeStatus

unfoldable pub runtime_status : Node → ℕ → ℕ → NodeStatus
runtime_status item now ttl =
    if not item.is_enabled
    then disabled
    else if item.last_heartbeat_at == 0
    then offline
    else if leb (now - item.last_heartbeat_at) (if ttl == 0 then 45_000_000_000 else ttl)
    then online
    else offline
