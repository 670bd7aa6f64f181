-- ===== src/Cache/Nodes.antt =====
-- infrastructure/hyperloom/sglang-owner-adapter/cache_policy_model.py: how assignments to nodes
-- change what is resident, and which node `evict_lru` picks.
use arch_linux_threadripper.Prelude.{
  ℕ, zero, suc, ◌+◌, ◌≤◌, ◌≡◌, refl, true, false, Option, none, some, List, [], ◌∷◌, ◌++◌, arith,
  if◌then◌else◌, inl, inr, leb, ◌&&◌, Bool-cases, All,
}
use arch_linux_threadripper.Cache.Pool.{
  Node, node_at, update, drop_value, resident, is_candidate, least, better,
}

abbrev pub weight : Node → ℕ
weight n = if n.value then 1 else 0

pub resident-update-le :
    (f : Node → Node)
    → ((n : Node) → weight (f n) ≤ weight n)
    → (i : ℕ) (ns : List Node) → resident (update i f ns) ≤ resident ns
unfolding resident update
resident-update-le f h i [] = omega arith
resident-update-le f h zero (n ∷ ns) = omega (arith, h n)
resident-update-le f h (suc i) (n ∷ ns) = omega (arith, resident-update-le f h i ns)

pub resident-update-suc :
    (f : Node → Node) (i : ℕ) (ns : List Node) → resident (update i f ns) ≤ resident ns + 1
unfolding resident update
resident-update-suc f i [] = omega arith
resident-update-suc f zero (n ∷ ns) = ground arith
resident-update-suc f (suc i) (n ∷ ns) = omega (arith, resident-update-suc f i ns)

pub resident-append : (ns : List Node) (n : Node) → resident (ns ++ n ∷ []) ≡ resident ns + weight n
unfolding resident
resident-append [] n = omega arith
resident-append (m ∷ ns) n = omega (arith, resident-append ns n)

-- Dropping the value of a resident node frees one state.
pub resident-update-drop :
    (i : ℕ) (ns : List Node) (m : Node)
    → node_at ns i ≡ some m
    → m.value ≡ true
    → resident (update i drop_value ns) + 1 ≡ resident ns
unfolding resident update node_at
resident-update-drop i [] m e v = cc
resident-update-drop zero (n ∷ ns) m e v = ground arith
resident-update-drop (suc i) (n ∷ ns) m e v = omega (arith, resident-update-drop i ns m e v)

-- The least recently used node that may be evicted: it is there, resident and unlocked, and no
-- resident unlocked node has an earlier stamp.
pub record IsLeast (ns : List Node) (i : ℕ) (m : Node) : Type 0 where
  pub there : node_at ns i ≡ some m
  pub candidate : is_candidate m ≡ true
  pub oldest : (j : ℕ) (n : Node) → node_at ns j ≡ some n → is_candidate n ≡ true → m.mru ≤ n.mru

-- Without a candidate in the list there is none at any index.
least-none :
    (ns : List Node)
    → least ns ≡ none
    → (j : ℕ) (n : Node) → node_at ns j ≡ some n
    → is_candidate n ≡ false
unfolding least node_at
least-none [] h j n e = cc
least-none (a ∷ ns) h zero n e = ground arith
least-none (a ∷ ns) h (suc j) n e = least-none ns (ground arith) j n e

-- No node is a candidate where there is no least one.
pub no_candidates :
    (ns : List Node) → least ns ≡ none → All (λ (n : Node). is_candidate n ≡ false) ns
unfolding least better
no_candidates [] h = tt
no_candidates (a ∷ ns) h = (ground arith, no_candidates ns (ground arith))

extend_oldest :
    (x : ℕ) (a : Node) (ns : List Node)
    → (is_candidate a ≡ true → x ≤ a.mru)
    → ((j : ℕ) (n : Node) → node_at ns j ≡ some n → is_candidate n ≡ true → x ≤ n.mru)
    → (j : ℕ) (n : Node) → node_at (a ∷ ns) j ≡ some n
    → is_candidate n ≡ true
    → x ≤ n.mru
unfolding node_at
extend_oldest x a ns h k zero n e c = ground arith
extend_oldest x a ns h k (suc j) n e c = k j n e c

better-IsLeast :
    (a : Node) (ns : List Node) (r : Option (ℕ × Node)) (i : ℕ) (m : Node)
    → least ns ≡ r
    → ((j : ℕ) (b : Node) → r ≡ some (j, b) → IsLeast ns j b)
    → better a r ≡ some (i, m)
    → IsLeast (a ∷ ns) i m
unfolding better node_at
better-IsLeast a ns none i m e ih h =
    let a_is : a ≡ m = ground arith in
    let first : i ≡ 0 = ground arith in
    let is : is_candidate a ≡ true = ground arith in
    record {
      there = rw (first, a_is) refl;
      candidate = rw (← a_is) is;
      oldest =
          extend_oldest m.mru a ns (λ _. rw a_is (omega arith))
            (λ j n f c. absurd (let no = least-none ns e j n f in cc (no, c)));
    }
better-IsLeast a ns (some (k, b)) i m e ih h =
    let tail = ih k b refl in
    elim (Bool-cases (is_candidate a && leb a.mru b.mru)) [
      | inl yes_a ↦
          let a_is : a ≡ m = ground arith in
          let first : i ≡ 0 = ground arith in
          let less : m.mru ≤ b.mru = ground arith in
          let is : is_candidate a ≡ true = ground arith in
          record {
            there = rw (first, a_is) refl;
            candidate = rw (← a_is) is;
            oldest =
                extend_oldest m.mru a ns (λ _. rw a_is (omega arith))
                  (λ j n f c. omega (arith, tail.oldest j n f c, less));
          }
      | inr no_a ↦
          let b_is : b ≡ m = ground arith in
          let later : i ≡ suc k = ground arith in
          let beats : is_candidate a ≡ true → m.mru ≤ a.mru = λ c. ground arith in
          record {
            there = rw (later, ← b_is) tail.there;
            candidate = rw (← b_is) tail.candidate;
            oldest = extend_oldest m.mru a ns beats (λ j n f c. rw (← b_is) (tail.oldest j n f c));
          }
    ]

pub least-IsLeast : (ns : List Node) (i : ℕ) (m : Node) → least ns ≡ some (i, m) → IsLeast ns i m
unfolding least node_at
least-IsLeast [] i m h = cc
least-IsLeast (a ∷ ns) i m h = better-IsLeast a ns (least ns) i m refl (least-IsLeast ns) h
