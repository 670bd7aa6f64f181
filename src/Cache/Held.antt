-- ===== src/Cache/Held.antt =====
-- infrastructure/hyperloom/sglang-owner-adapter/cache_policy_model.py: eviction, and a locked state is kept
-- by the operations of the tree.
use arch_linux_threadripper.Prelude.{
  ℕ, zero, suc, ◌+◌, ◌-◌, String, ◌≡◌, refl, sym, subst, true, false, ◌||◌, Option, none, some,
  List, [], ◌∷◌, ◌++◌, arith, length, leb, ◌==◌, ok, err, ◌⊎◌, succeeded, split_if, inl, inr,
  Option-cases, Bool-cases, if◌then◌else◌, All, All-append,
}
use arch_linux_threadripper.Cache.Pool.{
  pool_size, is_candidate, exhausted, Node, Pool, evict, unlimited, at_most, node_at, update,
  drop_value, unlock, used, least, evict_lru, allocate, find_link, link_or_add, fresh_node,
  chain_node, may_trim, trimmed, trim_loop, trim_path, capped_trim, holders, reversed, unlock_at,
  stamp, lock, insert,
}
use arch_linux_threadripper.Cache.Requests.{has_value}
use arch_linux_threadripper.Cache.Nodes.{IsLeast, least-IsLeast, no_candidates}

-- A locked node holds its state.
abbrev pub IsHeld : Node → Type 0
IsHeld n = n.locked ≡ true → n.value ≡ true

abbrev pub Holds : Pool → Type 0
Holds p = All IsHeld p.nodes

module _ (f : Node → Node) where
  pub All-update :
      (i : ℕ) (ns : List Node)
      → ((n : Node) → node_at ns i ≡ some n → IsHeld n → IsHeld (f n))
      → All IsHeld ns
      → All IsHeld (update i f ns)
  unfolding update node_at
  All-update i [] h a = tt
  All-update zero (n ∷ ns) h a = (h n refl a.0, a.1)
  All-update (suc i) (n ∷ ns) h a = (a.0, All-update i ns h a.1)

pub value_of :
    (ns : List Node) (i : ℕ) (n : Node)
    → has_value ns i ≡ true
    → node_at ns i ≡ some n
    → n.value ≡ true
value_of ns i n v e = ground arith

stamped :
    (now i : ℕ) (ns : List Node) (n : Node)
    → node_at (update i (stamp now) ns) i ≡ some n
    → n.value ≡ true
unfolding update node_at
stamped now i [] n e = cc
stamped now zero (m ∷ ns) n e = ground arith
stamped now (suc i) (m ∷ ns) n e = stamped now i ns n e

-- What an eviction changes: the victim's state, and the record of it
abbrev pub Evicts : Pool → Pool → Type 0
Evicts p p' =
    (i : ℕ) × (victim : Node) × IsLeast p.nodes i victim
    × (p' ≡ record p {
      nodes = update i drop_value p.nodes;
      events = p.events ++ evict victim.path victim.position ∷ [];
    })

evict_lru-Evicts : (p p' : Pool) → evict_lru p ≡ ok p' → Evicts p p'
unfolding evict_lru
evict_lru-Evicts p p' h = elim (Option-cases (least p.nodes)) [
  | inl e ↦ absurd (ground arith)
  | inr ((i, m), e) ↦ (i, m, least-IsLeast p.nodes i m e, ground arith)
]

-- An eviction has two outcomes. Either it gives up the least recently used of the resident states that
-- are not locked, and records it, and nothing else of the pool changes; or it raises that the pool is
-- exhausted, and then no node is resident and unlocked.
pub evict_lru_victim :
    (p : Pool)
    → ((p' : Pool) × (evict_lru p ≡ ok p') × Evicts p p')
      ⊎ ((evict_lru p ≡ err exhausted) × All (λ (n : Node). is_candidate n ≡ false) p.nodes)
unfolding evict_lru
evict_lru_victim p = elim (Option-cases (least p.nodes)) [
  | inl e ↦ inr (ground arith, no_candidates p.nodes e)
  | inr ((i, m), e) ↦
      let p' : Pool = record p {
        nodes = update i drop_value p.nodes;
        events = p.events ++ evict m.path m.position ∷ [];
      } in
      inl (p', ground arith, (i, m, least-IsLeast p.nodes i m e, refl))
]

pub allocate-Holds : (p p' : Pool) → Holds p → allocate p ≡ ok p' → Holds p'
unfolding allocate
allocate-Holds p p' a h =
    split_if (leb pool_size (used p)) _ _ h
      (λ _ e.
        let (i, m, l, same) = evict_lru-Evicts p p' e in
        let kept =
          All-update drop_value i p.nodes
            (λ n there held. λ locked. ground (arith, l.there, l.candidate)) a in
        subst Holds (sym same) kept)
      (λ _ e. let same : p ≡ p' = ground arith in subst Holds same a)

link_or_add-Holds :
    (o : Option ℕ) (path : String) (position : ℕ) (p : Pool)
    → Holds p
    → Holds (link_or_add o path position p).0
unfolding link_or_add
link_or_add-Holds (some i) path position p a = a
link_or_add-Holds none path position p a =
    All-append IsHeld p.nodes (fresh_node path position p ∷ []) a ((λ e. cc), tt)

trimmed-Holds :
    (i : ℕ) (n : Node) (p : Pool) → node_at p.nodes i ≡ some n → Holds p → Holds (trimmed i n p)
trimmed-Holds i n p e a = elim (Bool-cases (may_trim i n p.nodes)) [
  | inl may ↦ rw may (All-update drop_value i p.nodes (λ m there held. λ locked. ground arith) a)
  | inr may_not ↦ rw may_not a
]

trim_loop-Holds :
    (tail excess : ℕ) (held : List ℕ) (p : Pool) → Holds p → Holds (trim_loop tail excess held p)
unfolding trim_loop
trim_loop-Holds tail excess [] p a = a
trim_loop-Holds tail excess (i ∷ rest) p a = elim (Option-cases (node_at p.nodes i)) [
  | inl e ↦ rw (e, trim_loop) a
  | inr (n, e) ↦
      let left = if may_trim i n p.nodes then excess - 1 else excess in
      let later = trim_loop tail left rest (trimmed i n p) in
      let ih = trim_loop-Holds tail left rest (trimmed i n p) (trimmed-Holds i n p e a) in
      rw (e, trim_loop)
        (elim (excess == 0 || i == tail) as (λ b. Holds (if b then p else later)) [
          | true ↦ a
          | false ↦ ih
        ])
]

pub trim_path-Holds : (tail : ℕ) (p : Pool) → Holds p → Holds (trim_path tail p)
unfolding trim_path
trim_path-Holds tail p a = elim p.cap as (λ c. Holds (capped_trim c tail p)) [
  | unlimited ↦ a
  | at_most cap ↦
      let held = holders (length p.nodes) tail p.nodes in
      trim_loop-Holds tail (length held - cap) (reversed [] held) p a
]

still_valued :
    (now i j : ℕ) (ns : List Node) (n : Node)
    → node_at (update j unlock (update i (stamp now) ns)) i ≡ some n
    → n.value ≡ true
unfolding update node_at
still_valued now i j [] n e = cc
still_valued now zero zero (m ∷ ns) n e = ground arith
still_valued now zero (suc j) (m ∷ ns) n e = ground arith
still_valued now (suc i) zero (m ∷ ns) n e = stamped now i ns n e
still_valued now (suc i) (suc j) (m ∷ ns) n e = still_valued now i j ns n e

-- The node that takes the lock has just been given its state.
moved-AllHeld :
    (now i : ℕ) (held : Option ℕ) (ns : List Node)
    → All IsHeld ns
    → All IsHeld (update i lock (unlock_at held (update i (stamp now) ns)))
moved-AllHeld now i none ns a =
    All-update lock i (update i (stamp now) ns) (λ n e h. λ _. stamped now i ns n e)
      (All-update (stamp now) i ns (λ n e h. λ _. refl) a)
moved-AllHeld now i (some j) ns a =
    let touched = update i (stamp now) ns in
    let freed = update j unlock touched in
    let inner =
      All-update unlock j touched (λ n e h. λ l. cc)
        (All-update (stamp now) i ns (λ n e h. λ _. refl) a) in
    All-update lock i freed (λ n e h. λ _. still_valued now i j ns n e) inner

pub insert-Holds :
    (path : String) (position : ℕ) (held : Option ℕ) (p p' : Pool) (i : ℕ)
    → Holds p
    → insert path position held p ≡ ok (p', i)
    → Holds p'
unfolding insert chain_node
insert-Holds path position held p p' i a h = succeeded (allocate p) _ h λ room e h₁.
    let linked = (chain_node path position room).0 in
    let j = (chain_node path position room).1 in
    let b =
      link_or_add-Holds (find_link path position room.chains) path position room
        (allocate-Holds p room a e) in
    let before : Pool = record linked {
      nodes = update j lock (unlock_at held (update j (stamp linked.clock) linked.nodes));
      clock = linked.clock + 1;
    } in
    let same : trim_path j before ≡ p' = ground arith in
    subst Holds same (trim_path-Holds j before (moved-AllHeld linked.clock j held linked.nodes b))
