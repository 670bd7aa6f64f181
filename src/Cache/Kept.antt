-- ===== src/Cache/Kept.antt =====
-- infrastructure/hyperloom/sglang-owner-adapter/cache_policy_model.py: the state that a request holds is
-- locked and resident, through `insert` and `prefill`.
use arch_linux_threadripper.Prelude.{
  ℕ, zero, suc, ◌+◌, ◌-◌, ◌<◌, ◌≤◌, String, ◌≡◌, refl, sym, subst, ap, ◌∙◌, true, false, ◌||◌,
  Option, none, some, List, [], ◌∷◌, ◌++◌, arith, length, leb, ◌==◌, ==_iff, ok, succeeded,
  split_if, inl, inr, Option-cases, Bool-cases, if◌then◌else◌, All, All-append, str_eq, ◌&&◌, min,
}
use arch_linux_threadripper.Cache.Pool.{
  pool_size, evict, unlimited, at_most, Node, Link, Pool, node_at, update, drop_value, unlock, used,
  least, evict_lru, allocate, find_link, link_or_add, fresh_node, chain_node, may_trim, trimmed,
  trim_loop, trim_path, capped_trim, holders, reversed, unlock_at, stamp, lock, insert, chunk,
}
use arch_linux_threadripper.Cache.Requests.{
  has_value, best_hit, refresh, match_prompt, stash_chunks, link_position, link_node, chunk_count,
  add_pin, prefill, donate_leaf, finish, retire, discard_pin,
}
use arch_linux_threadripper.Cache.Nodes.{least-IsLeast}

-- The node is there, locked, and resident.
abbrev pub IsKept : ℕ → Pool → Type 0
IsKept i p = (n : Node) × (node_at p.nodes i ≡ some n) × (n.locked ≡ true) × (n.value ≡ true)

-- Every link of the chains leads to a node.
abbrev pub IsLinked : Pool → Type 0
IsLinked p = All (λ (l : Link). l.node < length p.nodes) p.chains

-- What changes neither the chains nor the number of the nodes
abbrev IsSameTree : Pool → Pool → Type 0
IsSameTree p q = (q.chains ≡ p.chains) × (length q.nodes ≡ length p.nodes)

all_below :
    (m n : ℕ) (ls : List Link)
    → m ≤ n
    → All (λ (l : Link). l.node < m) ls
    → All (λ (l : Link). l.node < n) ls
all_below m n [] h a = tt
all_below m n (l ∷ ls) h a = (omega (arith, h, a.0), all_below m n ls h a.1)

IsSameTree-IsLinked : (p q : Pool) → IsSameTree p q → IsLinked p → IsLinked q
IsSameTree-IsLinked p q (same, size) a =
    subst (All (λ (l : Link). l.node < length q.nodes)) (sym same)
      (all_below (length p.nodes) (length q.nodes) p.chains (omega (arith, size)) a)

length-update : (i : ℕ) (f : Node → Node) (ns : List Node) → length (update i f ns) ≡ length ns
unfolding update
length-update i f [] = refl
length-update zero f (n ∷ ns) = refl
length-update (suc i) f (n ∷ ns) = omega (arith, length-update i f ns)

length-append : (ns : List Node) (n : Node) → length (ns ++ n ∷ []) ≡ suc (length ns)
length-append [] n = refl
length-append (m ∷ ns) n = omega (arith, length-append ns n)

node_at_there : (i : ℕ) (ns : List Node) → i < length ns → (n : Node) × (node_at ns i ≡ some n)
unfolding node_at
node_at_there i [] h = absurd (omega (arith, h))
node_at_there zero (n ∷ ns) h = (n, refl)
node_at_there (suc i) (n ∷ ns) h = node_at_there i ns (omega (arith, h))

node_at-update_self :
    (i : ℕ) (f : Node → Node) (ns : List Node) (n : Node)
    → node_at ns i ≡ some n
    → node_at (update i f ns) i ≡ some (f n)
unfolding node_at update
node_at-update_self i f [] n e = cc
node_at-update_self zero f (m ∷ ns) n e =
    let same : m ≡ n = ground arith in ap (λ x. some (f x)) same
node_at-update_self (suc i) f (m ∷ ns) n e = node_at-update_self i f ns n e

node_at-update_other :
    (i j : ℕ) (f : Node → Node) (ns : List Node)
    → (i == j) ≡ false
    → node_at (update i f ns) j ≡ node_at ns j
unfolding node_at update
node_at-update_other i j f [] h = refl
node_at-update_other zero zero f (n ∷ ns) h = cc
node_at-update_other zero (suc j) f (n ∷ ns) h = refl
node_at-update_other (suc i) zero f (n ∷ ns) h = refl
node_at-update_other (suc i) (suc j) f (n ∷ ns) h = node_at-update_other i j f ns (ground arith)

evict_lru-IsSameTree : (p q : Pool) → evict_lru p ≡ ok q → IsSameTree p q
unfolding evict_lru
evict_lru-IsSameTree p q h = elim (Option-cases (least p.nodes)) [
  | inl e ↦ absurd (ground arith)
  | inr ((i, m), e) ↦
      let kept : Pool = record p {
        nodes = update i drop_value p.nodes;
        events = p.events ++ evict m.path m.position ∷ [];
      } in
      let same : kept ≡ q = ground arith in
      subst (IsSameTree p) same (refl, length-update i drop_value p.nodes)
]

allocate-IsSameTree : (p q : Pool) → allocate p ≡ ok q → IsSameTree p q
unfolding allocate
allocate-IsSameTree p q h =
    split_if (leb pool_size (used p)) _ _ h (λ _ e. evict_lru-IsSameTree p q e)
      (λ _ e. let same : p ≡ q = ground arith in subst (IsSameTree p) same (refl, refl))

-- An eviction takes no locked node.
evict_lru-IsKept : (j : ℕ) (p q : Pool) → IsKept j p → evict_lru p ≡ ok q → IsKept j q
unfolding evict_lru
evict_lru-IsKept j p q (n, there, locked, value) h = elim (Option-cases (least p.nodes)) [
  | inl e ↦ absurd (ground arith)
  | inr ((i, m), e) ↦
      let l = least-IsLeast p.nodes i m e in
      let kept : Pool = record p {
        nodes = update i drop_value p.nodes;
        events = p.events ++ evict m.path m.position ∷ [];
      } in
      let same : kept ≡ q = ground arith in
      elim (Bool-cases (i == j)) [
        | inr other ↦
            subst (IsKept j) same
              (n, node_at-update_other i j drop_value p.nodes other ∙ there, locked, value)
        | inl own ↦
            let here : node_at p.nodes j ≡ some m =
              subst (λ k. node_at p.nodes k ≡ some m) ((==_iff i j).0 own) l.there in
            let again : m ≡ n = let both : some m ≡ some n = sym here ∙ there in ground arith in
            absurd (ground (arith, l.candidate))
      ]
]

pub allocate-IsKept : (j : ℕ) (p q : Pool) → IsKept j p → allocate p ≡ ok q → IsKept j q
unfolding allocate
allocate-IsKept j p q k h =
    split_if (leb pool_size (used p)) _ _ h (λ _ e. evict_lru-IsKept j p q k e)
      (λ _ e. let same : p ≡ q = ground arith in subst (IsKept j) same k)

-- The node that is matched, if there is one, is there, locked and resident.
abbrev pub IsMatched : Option Link → Pool → Type 0
IsMatched none p = Unit {0}
IsMatched (some l) p = IsKept l.node p

pub refreshed_IsKept :
    (i now clock : ℕ) (p : Pool)
    → has_value p.nodes i ≡ true
    → IsKept i (record p { nodes = update i (refresh now) p.nodes; clock = clock })
refreshed_IsKept i now clock p v = elim (Option-cases (node_at p.nodes i)) [
  | inl e ↦ absurd (ground arith)
  | inr (n, e) ↦
      (refresh now n, node_at-update_self i (refresh now) p.nodes n e, refl, ground arith)
]

trimmed-IsSameTree : (i : ℕ) (n : Node) (p : Pool) → IsSameTree p (trimmed i n p)
trimmed-IsSameTree i n p = elim (Bool-cases (may_trim i n p.nodes)) [
  | inl may ↦ rw may (refl, length-update i drop_value p.nodes)
  | inr may_not ↦ rw may_not (refl, refl)
]

-- Trimming passes over a locked node.
trimmed-IsKept :
    (i j : ℕ) (n : Node) (p : Pool)
    → node_at p.nodes i ≡ some n
    → IsKept j p
    → IsKept j (trimmed i n p)
trimmed-IsKept i j n p e (m, there, locked, value) = elim (Bool-cases (may_trim i n p.nodes)) [
  | inr may_not ↦ rw may_not (m, there, locked, value)
  | inl may ↦ elim (Bool-cases (i == j)) [
    | inr other ↦
        rw may (m, node_at-update_other i j drop_value p.nodes other ∙ there, locked, value)
    | inl own ↦
        let same : i ≡ j = (==_iff i j).0 own in
        let here : node_at p.nodes j ≡ some n = subst (λ k. node_at p.nodes k ≡ some n) same e in
        let again : n ≡ m = let both : some n ≡ some m = sym here ∙ there in ground arith in
        absurd (ground arith)
  ]
]

-- What trimming leaves: the tree, and the locked node at an index
abbrev Leaves : ℕ → Pool → Pool → Type 0
Leaves j p q = IsSameTree p q × IsKept j q

trim_loop-Leaves :
    (tail excess j : ℕ) (held : List ℕ) (p : Pool)
    → IsKept j p
    → Leaves j p (trim_loop tail excess held p)
unfolding trim_loop
trim_loop-Leaves tail excess j [] p k = ((refl, refl), k)
trim_loop-Leaves tail excess j (i ∷ rest) p k = elim (Option-cases (node_at p.nodes i)) [
  | inl e ↦ rw (e, trim_loop) ((refl, refl), k)
  | inr (n, e) ↦
      let left = if may_trim i n p.nodes then excess - 1 else excess in
      let later = trim_loop tail left rest (trimmed i n p) in
      let (t, t') = trimmed-IsSameTree i n p in
      let ((s, s'), ih) =
        trim_loop-Leaves tail left j rest (trimmed i n p) (trimmed-IsKept i j n p e k) in
      rw (e, trim_loop)
        (elim (excess == 0 || i == tail) as (λ b. Leaves j p (if b then p else later)) [
          | true ↦ ((refl, refl), k)
          | false ↦ ((s ∙ t, s' ∙ t'), ih)
        ])
]

trim_path-Leaves : (tail j : ℕ) (p : Pool) → IsKept j p → Leaves j p (trim_path tail p)
unfolding trim_path
trim_path-Leaves tail j p k = elim p.cap as (λ c. Leaves j p (capped_trim c tail p)) [
  | unlimited ↦ ((refl, refl), k)
  | at_most cap ↦
      let held = holders (length p.nodes) tail p.nodes in
      trim_loop-Leaves tail (length held - cap) j (reversed [] held) p k
]

trim_loop-IsSameTree :
    (tail excess : ℕ) (held : List ℕ) (p : Pool) → IsSameTree p (trim_loop tail excess held p)
unfolding trim_loop
trim_loop-IsSameTree tail excess [] p = (refl, refl)
trim_loop-IsSameTree tail excess (i ∷ rest) p = elim (Option-cases (node_at p.nodes i)) [
  | inl e ↦ rw (e, trim_loop) (refl, refl)
  | inr (n, e) ↦
      let left = if may_trim i n p.nodes then excess - 1 else excess in
      let later = trim_loop tail left rest (trimmed i n p) in
      let (t, t') = trimmed-IsSameTree i n p in
      let (s, s') = trim_loop-IsSameTree tail left rest (trimmed i n p) in
      rw (e, trim_loop)
        (elim (excess == 0 || i == tail) as (λ b. IsSameTree p (if b then p else later)) [
          | true ↦ (refl, refl)
          | false ↦ (s ∙ t, s' ∙ t')
        ])
]

trim_path-IsSameTree : (tail : ℕ) (p : Pool) → IsSameTree p (trim_path tail p)
unfolding trim_path
trim_path-IsSameTree tail p = elim p.cap as (λ c. IsSameTree p (capped_trim c tail p)) [
  | unlimited ↦ (refl, refl)
  | at_most cap ↦
      let held = holders (length p.nodes) tail p.nodes in
      trim_loop-IsSameTree tail (length held - cap) (reversed [] held) p
]

find_link_there :
    (path : String) (position m i : ℕ) (ls : List Link)
    → find_link path position ls ≡ some i
    → All (λ (l : Link). l.node < m) ls
    → i < m
unfolding find_link
find_link_there path position m i [] e a = cc
find_link_there path position m i (l ∷ ls) e a =
    split_if (str_eq l.path path && l.position == position) _ _ e
      (λ _ f. let same : l.node ≡ i = ground arith in subst (λ k. k < m) same a.0)
      (λ _ f. find_link_there path position m i ls f a.1)

-- The node of a position is there, and every link still leads to a node.
link_or_add-IsLinked :
    (o : Option ℕ) (path : String) (position : ℕ) (p : Pool)
    → find_link path position p.chains ≡ o
    → IsLinked p
    → IsLinked (link_or_add o path position p).0
      × ((link_or_add o path position p).1 < length (link_or_add o path position p).0.nodes)
unfolding link_or_add
link_or_add-IsLinked (some i) path position p e a =
    (a, find_link_there path position (length p.nodes) i p.chains e a)
link_or_add-IsLinked none path position p e a =
    let grown = length-append p.nodes (fresh_node path position p) in
    let link : Link = record { path = path; position = position; node = length p.nodes } in
    (
      All-append (λ (l : Link). l.node < length (p.nodes ++ fresh_node path position p ∷ []))
          p.chains (link ∷ []) (all_below (length p.nodes) _ p.chains (omega (arith, grown)) a)
          (omega (arith, grown), tt),
      omega (arith, grown),
    )

-- The moved lock: the node that takes it has its state.
unlocked_value :
    (held : Option ℕ) (i : ℕ) (ns : List Node) (n : Node)
    → node_at ns i ≡ some n
    → n.value ≡ true
    → (m : Node) × (node_at (unlock_at held ns) i ≡ some m) × (m.value ≡ true)
unlocked_value none i ns n e v = (n, e, v)
unlocked_value (some j) i ns n e v = elim (Bool-cases (j == i)) [
  | inr other ↦ (n, node_at-update_other j i unlock ns other ∙ e, v)
  | inl own ↦
      let same : j ≡ i = (==_iff j i).0 own in
      (
        unlock n,
        subst (λ k. node_at (update k unlock ns) i ≡ some (unlock n)) (sym same)
            (node_at-update_self i unlock ns n e),
        v,
      )
]

locked_at :
    (now i : ℕ) (held : Option ℕ) (ns : List Node)
    → i < length ns
    → (n : Node) × (node_at (update i lock (unlock_at held (update i (stamp now) ns))) i ≡ some n)
      × (n.locked ≡ true)
      × (n.value ≡ true)
locked_at now i held ns there =
    let (n, e) = node_at_there i ns there in
    let (m, f, v) =
      unlocked_value held i (update i (stamp now) ns) (stamp now n)
        (node_at-update_self i (stamp now) ns n e) refl in
    (lock m, node_at-update_self i lock (unlock_at held (update i (stamp now) ns)) m f, refl, v)

length-unlock_at : (held : Option ℕ) (ns : List Node) → length (unlock_at held ns) ≡ length ns
length-unlock_at none ns = refl
length-unlock_at (some i) ns = length-update i unlock ns

pub insert-IsKept :
    (path : String) (position : ℕ) (held : Option ℕ) (p q : Pool) (i : ℕ)
    → IsLinked p
    → insert path position held p ≡ ok (q, i)
    → IsLinked q × IsKept i q
unfolding insert chain_node
insert-IsKept path position held p q i a h = succeeded (allocate p) _ h λ room e h₁.
    let linked = (chain_node path position room).0 in
    let j = (chain_node path position room).1 in
    let (b, there) =
      link_or_add-IsLinked (find_link path position room.chains) path position room refl
        (IsSameTree-IsLinked p room (allocate-IsSameTree p room e) a) in
    let moved = update j lock (unlock_at held (update j (stamp linked.clock) linked.nodes)) in
    let before : Pool = record linked { nodes = moved; clock = linked.clock + 1 } in
    let size : length moved ≡ length linked.nodes =
      length-update j lock _ ∙ length-unlock_at held _ ∙ length-update j (stamp linked.clock) _ in
    let c = IsSameTree-IsLinked linked before (refl, size) b in
    let (t, k) = trim_path-Leaves j j before (locked_at linked.clock j held linked.nodes there) in
    let same : trim_path j before ≡ q = ground arith in
    let own : j ≡ i = ground arith in
    (
      subst IsLinked same (IsSameTree-IsLinked before (trim_path j before) t c),
      subst (λ k. IsKept k q) own (subst (IsKept j) same k),
    )

match_prompt-IsLinked :
    (path : String) (prompt : ℕ) (p : Pool) → IsLinked p → IsLinked (match_prompt path prompt p).0
unfolding match_prompt
match_prompt-IsLinked path prompt p a =
    elim (Option-cases (best_hit path prompt p.nodes p.chains)) [
      | inl e ↦ rw e a
      | inr (l, e) ↦ rw e (
          all_below (length p.nodes) _ p.chains
            (omega (arith, length-update l.node (refresh p.clock) p.nodes)) a)
    ]

stash_chunks-IsLinked :
    (path : String) (prompt left position : ℕ) (held : Option ℕ) (p q : Pool) (held' : Option ℕ)
    → IsLinked p
    → stash_chunks path prompt left position held p ≡ ok (q, held')
    → IsLinked q
unfolding stash_chunks
stash_chunks-IsLinked path prompt zero position held p q held' a h =
    let same : p ≡ q = ground arith in subst IsLinked same a
stash_chunks-IsLinked path prompt (suc zero) position held p q held' a h =
    let same : p ≡ q = ground arith in subst IsLinked same a
stash_chunks-IsLinked path prompt (suc (suc left)) position held p q held' a h =
    let at = min (position + chunk) prompt in
    succeeded (insert path at held p) _ h λ r e h₁.
      stash_chunks-IsLinked path prompt (suc left) at (some r.1) r.0 q held'
        (insert-IsKept path at held p r.0 r.1 a e).0 h₁

-- A request that was prefilled holds a node that is there, locked and resident.
pub prefill-IsLinked :
    (rid : ℕ) (path : String) (prompt : ℕ) (p q : Pool) (cached held : ℕ)
    → IsLinked p
    → prefill rid path prompt p ≡ ok (q, cached, held)
    → IsLinked q × IsKept held q
unfolding prefill
prefill-IsLinked rid path prompt p q cached held a h =
    let (matched, hit) = match_prompt path prompt p in
    let start = link_position hit in
    succeeded (allocate matched) _ h λ room e h₁.
      let started : Pool = record room { pinned = add_pin rid room.pinned } in
      let b : IsLinked started =
        IsSameTree-IsLinked matched room (allocate-IsSameTree matched room e)
          (match_prompt-IsLinked path prompt p a) in
      succeeded (stash_chunks path prompt (chunk_count prompt start) start (link_node hit) started)
        _ h₁
        λ s e' h₂.
          let c =
            stash_chunks-IsLinked path prompt (chunk_count prompt start) start (link_node hit)
              started s.0 s.1 b e' in
          succeeded (insert path prompt s.1 s.0) _ h₂ λ r e'' h₃.
            let (d, k) = insert-IsKept path prompt s.1 s.0 r.0 r.1 c e'' in
            let same : r.0 ≡ q = ground arith in
            let own : r.1 ≡ held = ground arith in
            (subst IsLinked same d, subst (λ i. IsKept i q) own (subst (IsKept r.1) same k))

donate_leaf-IsLinked :
    (path : String) (prompt completion : ℕ) (p q : Pool)
    → IsLinked p
    → donate_leaf path prompt completion p ≡ ok q
    → IsLinked q
unfolding donate_leaf
donate_leaf-IsLinked path prompt completion p q a h = succeeded (allocate p) _ h λ room e h₁.
    elim (Option-cases (find_link path prompt room.chains)) [
      | inl not_there ↦ absurd (ground arith)
      | inr (parent, e') ↦
          let leaf : Node = record {
            path = path;
            position = prompt + completion;
            parent = some parent;
            value = true;
            locked = false;
            mru = room.clock;
          } in
          let grown : Pool = record room {
            nodes = room.nodes ++ leaf ∷ [];
            clock = room.clock + 1;
          } in
          let same : trim_path (length room.nodes) grown ≡ q = ground arith in
          let b = IsSameTree-IsLinked p room (allocate-IsSameTree p room e) a in
          let c : IsLinked grown =
            all_below (length room.nodes) _ room.chains
              (omega (arith, length-append room.nodes leaf)) b in
          subst IsLinked same (
            IsSameTree-IsLinked grown (trim_path (length room.nodes) grown)
              (trim_path-IsSameTree (length room.nodes) grown) c)
    ]

pub finish-IsLinked :
    (rid : ℕ) (path : String) (prompt completion held : ℕ) (p q : Pool)
    → IsLinked p
    → finish rid path prompt completion held p ≡ ok q
    → IsLinked q
unfolding finish
finish-IsLinked rid path prompt completion held p q a h =
    succeeded (if p.finish_new_leaf then donate_leaf path prompt completion p else ok p) _ h
      λ grown e h₁.
        let b : IsLinked grown =
          split_if p.finish_new_leaf _ _ e
            (λ _ d. donate_leaf-IsLinked path prompt completion p grown a d)
            (λ _ d. let same : p ≡ grown = ground arith in subst IsLinked same a) in
        let done : Pool = record grown {
          nodes = update held (retire grown.clock) grown.nodes;
          clock = grown.clock + 1;
          pinned = discard_pin rid grown.pinned;
        } in
        let same : done ≡ q = ground arith in
        subst IsLinked same (
          IsSameTree-IsLinked grown done (refl, length-update held (retire grown.clock) grown.nodes)
            b)
