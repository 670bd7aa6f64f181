-- ===== src/Cache/Use.antt =====
-- infrastructure/hyperloom/sglang-owner-adapter/cache_policy_model.py: how many states the operations of
-- the tree leave in use.
use arch_linux_threadripper.Prelude.{
  ℕ, ◌+◌, ◌-◌, ◌≤◌, ◌<◌, String, ◌≡◌, refl, ap, ◌∙◌, sym, subst, true, false, Option, none, some,
  List, [], ◌∷◌, arith, length, leb, ◌==◌, ◌||◌, ok, succeeded, split_if, inl, inr, Option-cases,
  if◌then◌else◌,
}
use arch_linux_threadripper.Cache.Pool.{
  pool_size, Node, Pool, unlimited, at_most, node_at, update, drop_value, unlock, resident, used,
  least, evict_lru, allocate, find_link, link_or_add, fresh_node, chain_node, may_trim, trimmed,
  trim_loop, trim_path, capped_trim, holders, reversed, unlock_at, stamp, lock, insert,
}
use arch_linux_threadripper.Cache.Nodes.{
  resident-update-le, resident-update-suc, resident-append, resident-update-drop, least-IsLeast,
}

abbrev pub Fits : Pool → Type 0
Fits p = used p ≤ pool_size

evict_lru-used :
    (p p' : Pool) → evict_lru p ≡ ok p' → (used p' + 1 ≡ used p) × (p'.pinned ≡ p.pinned)
unfolding evict_lru used
evict_lru-used p p' h = elim (Option-cases (least p.nodes)) [
  | inl e ↦ ground arith
  | inr ((i, m), e) ↦
      let l = least-IsLeast p.nodes i m e in
      let valued : m.value ≡ true = ground (arith, l.candidate) in
      ground (arith, resident-update-drop i p.nodes m l.there valued)
]

-- Room for one more state.
pub allocate-used :
    (p p' : Pool) → Fits p → allocate p ≡ ok p' → (used p' < pool_size) × (p'.pinned ≡ p.pinned)
unfolding allocate
allocate-used p p' fits h =
    split_if (leb pool_size (used p)) _ _ h
      (λ full e. let (u, q) = evict_lru-used p p' e in (omega (arith, u), q))
      (λ room e. ground arith)

link_or_add-used :
    (o : Option ℕ) (path : String) (position : ℕ) (p : Pool)
    → (used (link_or_add o path position p).0 ≡ used p)
      × ((link_or_add o path position p).0.pinned ≡ p.pinned)
unfolding link_or_add used
link_or_add-used (some i) path position p = (refl, refl)
link_or_add-used none path position p =
    (omega (arith, resident-append p.nodes (fresh_node path position p)), refl)

trimmed-used :
    (i : ℕ) (n : Node) (p : Pool)
    → (used (trimmed i n p) ≤ used p) × ((trimmed i n p).pinned ≡ p.pinned)
unfolding used
trimmed-used i n p = ground (arith, resident-update-le drop_value (λ m. omega arith) i p.nodes)

trim_loop-used :
    (tail excess : ℕ) (held : List ℕ) (p : Pool)
    → (used (trim_loop tail excess held p) ≤ used p)
      × ((trim_loop tail excess held p).pinned ≡ p.pinned)
unfolding trim_loop
trim_loop-used tail excess [] p = (omega arith, refl)
trim_loop-used tail excess (i ∷ rest) p = elim (Option-cases (node_at p.nodes i)) [
  | inl e ↦ ground arith
  | inr (n, e) ↦
      let left = if may_trim i n p.nodes then excess - 1 else excess in
      let later = trim_loop tail left rest (trimmed i n p) in
      let (ih, ih') = trim_loop-used tail left rest (trimmed i n p) in
      let (t, t') = trimmed-used i n p in
      rw (e, trim_loop)
        (elim (excess == 0 || i == tail)
          as (λ b. let q = if b then p else later in (used q ≤ used p) × (q.pinned ≡ p.pinned)) [
            | true ↦ (omega arith, refl)
            | false ↦ (omega (arith, t, ih), ih' ∙ t')
          ])
]

pub trim_path-used :
    (tail : ℕ) (p : Pool)
    → (used (trim_path tail p) ≤ used p) × ((trim_path tail p).pinned ≡ p.pinned)
unfolding trim_path
trim_path-used tail p =
    elim p.cap as (λ c. let q = capped_trim c tail p in (used q ≤ used p) × (q.pinned ≡ p.pinned)) [
      | unlimited ↦ (omega arith, refl)
      | at_most cap ↦
          let held = holders (length p.nodes) tail p.nodes in
          trim_loop-used tail (length held - cap) (reversed [] held) p
    ]

-- The touch, the moved lock and the new stamp bring in one state at most.
touched-used :
    (i now : ℕ) (held : Option ℕ) (ns : List Node)
    → resident (update i lock (unlock_at held (update i (stamp now) ns))) ≤ resident ns + 1
touched-used i now none ns = omega (
  arith,
  resident-update-suc (stamp now) i ns,
  resident-update-le lock (λ n. omega arith) i (update i (stamp now) ns),
)
touched-used i now (some j) ns = omega (
  arith,
  resident-update-suc (stamp now) i ns,
  resident-update-le unlock (λ n. omega arith) j (update i (stamp now) ns),
  resident-update-le lock (λ n. omega arith) i (update j unlock (update i (stamp now) ns)),
)

pub insert-Fits :
    (path : String) (position : ℕ) (held : Option ℕ) (p p' : Pool) (i : ℕ)
    → Fits p
    → insert path position held p ≡ ok (p', i)
    → Fits p' × (p'.pinned ≡ p.pinned)
unfolding insert chain_node used resident trim_path
insert-Fits path position held p p' i fits h = succeeded (allocate p) _ h λ room e h₁.
    let (u, q) = allocate-used p room fits e in
    let linked = (chain_node path position room).0 in
    let j = (chain_node path position room).1 in
    let (c, d) = link_or_add-used (find_link path position room.chains) path position room in
    let moved = update j lock (unlock_at held (update j (stamp linked.clock) linked.nodes)) in
    let before : Pool = record linked { nodes = moved; clock = linked.clock + 1 } in
    let (t, t') = trim_path-used j before in
    let same : trim_path j before ≡ p' = ground arith in
    let fewer : used before ≤ used linked + 1 =
      unfold used in omega (arith, touched-used j linked.clock held linked.nodes) in
    (
      subst Fits same (omega (arith, t, fewer, u, c)),
      ap (λ (x : Pool). x.pinned) (sym same) ∙ t' ∙ d ∙ q,
    )
