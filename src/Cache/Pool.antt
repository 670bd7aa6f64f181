-- ===== src/Cache/Pool.antt =====
-- infrastructure/hyperloom/sglang-owner-adapter/cache_policy_model.py, `Node` and `Pool`: accounting,
-- eviction, the chains and trimming. A node is known by its index in `nodes`.
use arch_linux_threadripper.Prelude.{
  ℕ, zero, suc, ◌+◌, ◌-◌, String, Bool, true, false, not, ◌&&◌, ◌||◌, Option, none, some, List, [],
  ◌∷◌, ◌++◌, ltb, leb, ◌==◌, if◌then◌else◌, Result, ok, err, ◌>>=◌, length, str_eq,
}
use arch_linux_threadripper.Prelude.Int.{ℤ, pos, negsuc}

abbrev pub chunk : ℕ
chunk = 2048

abbrev pub pool_size : ℕ
pool_size = 19

-- -1 switches trimming off.
pub data Cap : Type 0 where
  unlimited : Cap
  at_most : ℕ → Cap

-- `bad_cap` is the ValueError of the constructor, `exhausted` the RuntimeError of `evict_lru`, and
-- `missing` the KeyError of a chain or a lock that is not there.
pub data PoolError : Type 0 where
  bad_cap exhausted missing : PoolError

pub record Node : Type 0 where
  pub path : String
  pub position : ℕ
  pub parent : Option ℕ
  pub value : Bool
  pub locked : Bool
  pub mru : ℕ

pub data Event : Type 0 where
  evict trim : String → ℕ → Event

-- chains[path][position]
pub record Link : Type 0 where
  pub path : String
  pub position : ℕ
  pub node : ℕ

pub record Pool : Type 0 where
  pub cap : Cap
  pub finish_new_leaf : Bool
  pub clock : ℕ
  pub nodes : List Node
  pub chains : List Link
  pub pinned : List ℕ
  pub events : List Event

unfoldable pub new_pool : ℤ → Bool → Result PoolError Pool
new_pool (pos zero) leaf = err bad_cap
new_pool (pos (suc n)) leaf = ok (record {
  cap = at_most (suc n);
  finish_new_leaf = leaf;
  clock = 1;
  nodes = [];
  chains = [];
  pinned = [];
  events = [];
})
new_pool (negsuc zero) leaf = ok (record {
  cap = unlimited;
  finish_new_leaf = leaf;
  clock = 1;
  nodes = [];
  chains = [];
  pinned = [];
  events = [];
})
new_pool (negsuc (suc n)) leaf = err bad_cap

-- nodes[i]
unfoldable pub node_at : List Node → ℕ → Option Node
node_at [] i = none
node_at (n ∷ ns) zero = some n
node_at (n ∷ ns) (suc i) = node_at ns i

-- An assignment to attributes of one node.
unfoldable pub update : ℕ → (Node → Node) → List Node → List Node
update i f [] = []
update zero f (n ∷ ns) = f n ∷ ns
update (suc i) f (n ∷ ns) = n ∷ update i f ns

abbrev pub drop_value : Node → Node
drop_value n = record n { value = false }

abbrev pub unlock : Node → Node
unlock n = record n { locked = false }

unfoldable pub resident : List Node → ℕ
resident [] = 0
resident (n ∷ ns) = (if n.value then 1 else 0) + resident ns

unfoldable pub used : Pool → ℕ
used p = resident p.nodes + length p.pinned

abbrev pub is_candidate : Node → Bool
is_candidate n = n.value && not n.locked

-- One more node at the front, against the least candidate behind it.
unfoldable pub better : Node → Option (ℕ × Node) → Option (ℕ × Node)
better n none = if is_candidate n then some (0, n) else none
better n (some (i, m)) = if is_candidate n && leb n.mru m.mru then some (0, n) else some (suc i, m)

-- min(candidates, key=mru), as the index of the first node with the least stamp
unfoldable pub least : List Node → Option (ℕ × Node)
unfolding better
least [] = none
least (n ∷ ns) = better n (least ns)

unfoldable pub evict_lru : Pool → Result PoolError Pool
evict_lru p = elim (least p.nodes) [
  | none ↦ err exhausted
  | some (i, victim) ↦ ok (record p {
    nodes = update i drop_value p.nodes;
    events = p.events ++ evict victim.path victim.position ∷ [];
  })
]

unfoldable pub allocate : Pool → Result PoolError Pool
unfolding evict_lru
allocate p = if leb pool_size (used p) then evict_lru p else ok p

-- chains[path].get(position)
unfoldable pub find_link : String → ℕ → List Link → Option ℕ
find_link path position [] = none
find_link path position (l ∷ ls) =
    if str_eq l.path path && l.position == position then some l.node else find_link path position ls

-- chain[max(below)], as the link with the greatest position below the given one
unfoldable pub nearest_below : String → ℕ → List Link → Option Link
nearest_below path position [] = none
nearest_below path position (l ∷ ls) = elim (nearest_below path position ls) [
  | none ↦ if str_eq l.path path && ltb l.position position then some l else none
  | some b ↦
      if str_eq l.path path && ltb l.position position && leb b.position l.position
      then some l
      else some b
]

abbrev pub parent_of : Option Link → Option ℕ
parent_of none = none
parent_of (some l) = some l.node

abbrev pub fresh_node : String → ℕ → Pool → Node
fresh_node path position p = record {
  path = path;
  position = position;
  parent = parent_of (nearest_below path position p.chains);
  value = false;
  locked = false;
  mru = 0;
}

-- `if pos not in chain`: the pool with the node, and the node's index.
unfoldable pub link_or_add : Option ℕ → String → ℕ → Pool → Pool × ℕ
link_or_add (some i) path position p = (p, i)
link_or_add none path position p =
    let link : Link = record { path = path; position = position; node = length p.nodes } in
    (
      record p {
        nodes = p.nodes ++ fresh_node path position p ∷ [];
        chains = p.chains ++ link ∷ [];
      },
      length p.nodes,
    )

unfoldable pub chain_node : String → ℕ → Pool → Pool × ℕ
chain_node path position p = link_or_add (find_link path position p.chains) path position p

abbrev pub is_parent : ℕ → Option ℕ → Bool
is_parent i none = false
is_parent i (some j) = i == j

-- len(node.children)
unfoldable pub children : ℕ → List Node → ℕ
children i [] = 0
children i (n ∷ ns) = (if is_parent i n.parent then 1 else 0) + children i ns

-- The walk from a node to its root, and what it collects: the indices with a value, deepest first.
-- A parent is created before its children, so as many rounds as there are nodes are enough.
unfoldable pub holders : ℕ → ℕ → List Node → List ℕ
unfolding node_at
holders zero i ns = []
holders (suc fuel) i ns = elim (node_at ns i) [
  | none ↦ []
  | some n ↦
      let above : List ℕ = elim n.parent [ none ↦ [] | some j ↦ holders fuel j ns ] in
      if n.value then i ∷ above else above
]

-- One node of the loop of `trim`: whether its value is dropped.
abbrev pub may_trim : ℕ → Node → List Node → Bool
may_trim i n ns = not n.locked && children i ns == 1

abbrev pub trimmed : ℕ → Node → Pool → Pool
trimmed i n p =
    if may_trim i n p.nodes
    then record p {
      nodes = update i drop_value p.nodes;
      events = p.events ++ trim n.path n.position ∷ [];
    }
    else p

-- The loop of `trim`, over the holders with the shallowest first.
unfoldable pub trim_loop : ℕ → ℕ → List ℕ → Pool → Pool
unfolding node_at children update
trim_loop tail excess [] p = p
trim_loop tail excess (i ∷ rest) p = elim (node_at p.nodes i) [
  | none ↦ p
  | some n ↦
      let left = if may_trim i n p.nodes then excess - 1 else excess in
      let later = trim_loop tail left rest (trimmed i n p) in
      if excess == 0 || i == tail then p else later
]

-- reversed(holders)
unfoldable pub reversed : List ℕ → List ℕ → List ℕ
reversed done [] = done
reversed done (i ∷ rest) = reversed (i ∷ done) rest

-- `Pool.trim`
abbrev pub capped_trim : Cap → ℕ → Pool → Pool
capped_trim unlimited tail p = p
capped_trim (at_most cap) tail p =
    let held = holders (length p.nodes) tail p.nodes in
    trim_loop tail (length held - cap) (reversed [] held) p

unfoldable pub trim_path : ℕ → Pool → Pool
trim_path tail p = capped_trim p.cap tail p

abbrev pub unlock_at : Option ℕ → List Node → List Node
unlock_at none ns = ns
unlock_at (some i) ns = update i unlock ns

abbrev pub stamp : ℕ → Node → Node
stamp now n = record n { value = true; mru = now }

abbrev pub lock : Node → Node
lock n = record n { locked = true }

-- `Pool.insert`: the pool, and the index of the node that now holds the lock.
unfoldable pub insert : String → ℕ → Option ℕ → Pool → Result PoolError (Pool × ℕ)
insert path position held p = do
  room ← allocate p
  let (linked, i) = chain_node path position room
  let touched = update i (stamp linked.clock) linked.nodes
  let moved = update i lock (unlock_at held touched)
  ok (trim_path i (record linked { nodes = moved; clock = linked.clock + 1 }), i)
