-- ===== src/Cache/Matching.antt =====
-- infrastructure/hyperloom/sglang-owner-adapter/cache_policy_model.py: `match` finds the deepest state.
use arch_linux_threadripper.Prelude.{
  ℕ, ◌≤◌, String, ◌≡◌, refl, subst, Bool, true, false, ◌&&◌, Option, none, some, List, [], ◌∷◌,
  arith, leb, split_if, All, ◌++◌, ap, ◌⊎◌, inl, inr, Option-cases,
}
use arch_linux_threadripper.Cache.Pool.{Node, Link}
use arch_linux_threadripper.Cache.Requests.{is_hit, better_hit, best_hit}

pub last_of : (a b c : Bool) → (a && b && c) ≡ true → b ≡ true
last_of a b c h = ground arith

both : (b : Bool) (x y : ℕ) → (b && leb x y) ≡ true → (b ≡ true) × (x ≤ y)
both b x y h = ground arith

not_both : (b : Bool) (x y : ℕ) → (b && leb x y) ≡ false → b ≡ true → y ≤ x
not_both b x y h k = ground arith

better_hit-none :
    (hit : Bool) (l : Link) (o : Option Link)
    → better_hit hit l o ≡ none
    → (hit ≡ false) × (o ≡ none)
unfolding better_hit
better_hit-none hit l none h = ground arith
better_hit-none hit l (some b) h = ground arith

-- The state that `match` picks: a hit among the links, and none of the chain's hits lies deeper.
pub record IsBestHit (path : String) (prompt : ℕ) (ns : List Node) (ls : List Link) (l : Link)
    : Type 0 where
  pub before : List Link
  pub after : List Link
  pub listed : ls ≡ before ++ l ∷ after
  pub hit : is_hit path prompt ns l ≡ true
  pub deepest : All (λ (k : Link). is_hit path prompt ns k ≡ true → k.position ≤ l.position) ls

no_hits :
    (path : String) (prompt : ℕ) (ns : List Node) (ls : List Link) (x : ℕ)
    → best_hit path prompt ns ls ≡ none
    → All (λ (k : Link). is_hit path prompt ns k ≡ true → k.position ≤ x) ls
unfolding best_hit
no_hits path prompt ns [] x h = tt
no_hits path prompt ns (l ∷ ls) x h =
    let (miss, rest) = better_hit-none (is_hit path prompt ns l) l (best_hit path prompt ns ls) h in
    ((λ e. absurd (cc (e, miss))), no_hits path prompt ns ls x rest)

deeper :
    (path : String) (prompt : ℕ) (ns : List Node) (ls : List Link) (x y : ℕ)
    → x ≤ y
    → All (λ (k : Link). is_hit path prompt ns k ≡ true → k.position ≤ x) ls
    → All (λ (k : Link). is_hit path prompt ns k ≡ true → k.position ≤ y) ls
deeper path prompt ns [] x y h a = tt
deeper path prompt ns (l ∷ ls) x y h a =
    ((λ e. omega (arith, a.0 e, h)), deeper path prompt ns ls x y h a.1)

better_hit-IsBestHit :
    (path : String) (prompt : ℕ) (ns : List Node) (k : Link) (ls : List Link) (o : Option Link)
    (l : Link)
    → best_hit path prompt ns ls ≡ o
    → ((b : Link) → o ≡ some b → IsBestHit path prompt ns ls b)
    → better_hit (is_hit path prompt ns k) k o ≡ some l
    → IsBestHit path prompt ns (k ∷ ls) l
unfolding better_hit
better_hit-IsBestHit path prompt ns k ls none l e ih h =
    split_if (is_hit path prompt ns k) _ _ h
      (λ t s.
        let same : k ≡ l = ground arith in
        subst (IsBestHit path prompt ns (k ∷ ls)) same (record {
          before = [];
          after = ls;
          listed = rw same refl;
          hit = t;
          deepest = ((λ _. omega arith), no_hits path prompt ns ls k.position e);
        }))
      (λ f s. absurd (cc))
better_hit-IsBestHit path prompt ns k ls (some b) l e ih h =
    let tail = ih b refl in
    split_if (is_hit path prompt ns k && leb b.position k.position) _ _ h
      (λ t s.
        let same : k ≡ l = ground arith in
        let (hit_k, less) = both (is_hit path prompt ns k) b.position k.position t in
        subst (IsBestHit path prompt ns (k ∷ ls)) same (record {
          before = [];
          after = ls;
          listed = rw same refl;
          hit = hit_k;
          deepest = (
            (λ _. omega arith),
            deeper path prompt ns ls b.position k.position less tail.deepest,
          );
        }))
      (λ f s.
        let same : b ≡ l = ground arith in
        subst (IsBestHit path prompt ns (k ∷ ls)) same (record {
          before = k ∷ tail.before;
          after = tail.after;
          listed = ap (λ x. k ∷ x) tail.listed;
          hit = tail.hit;
          deepest =
              ((λ t. not_both (is_hit path prompt ns k) b.position k.position f t), tail.deepest);
        }))

pub best_hit_sound :
    (path : String) (prompt : ℕ) (ns : List Node) (ls : List Link) (l : Link)
    → best_hit path prompt ns ls ≡ some l
    → IsBestHit path prompt ns ls l
unfolding best_hit
best_hit_sound path prompt ns [] l h = cc
best_hit_sound path prompt ns (k ∷ ls) l h =
    better_hit-IsBestHit path prompt ns k ls (best_hit path prompt ns ls) l refl
      (best_hit_sound path prompt ns ls) h

best_hit_misses :
    (path : String) (prompt : ℕ) (ns : List Node) (ls : List Link)
    → best_hit path prompt ns ls ≡ none
    → All (λ (k : Link). is_hit path prompt ns k ≡ false) ls
unfolding best_hit
best_hit_misses path prompt ns [] h = tt
best_hit_misses path prompt ns (l ∷ ls) h =
    let (miss, rest) = better_hit-none (is_hit path prompt ns l) l (best_hit path prompt ns ls) h in
    (miss, best_hit_misses path prompt ns ls rest)

-- A match has two outcomes. Either it finds a link of the chains that leads to a resident state of the
-- prompt's own chain before its last token, and no other link to such a state lies deeper; or it finds
-- none, and then no link leads to such a state.
pub best_hit-IsBestHit :
    (path : String) (prompt : ℕ) (ns : List Node) (ls : List Link)
    → ((l : Link) × (best_hit path prompt ns ls ≡ some l) × IsBestHit path prompt ns ls l)
      ⊎ ((best_hit path prompt ns ls ≡ none)
          × All (λ (k : Link). is_hit path prompt ns k ≡ false) ls)
best_hit-IsBestHit path prompt ns ls = elim (Option-cases (best_hit path prompt ns ls)) [
  | inl e ↦ inr (e, best_hit_misses path prompt ns ls e)
  | inr (l, e) ↦ inl (l, e, best_hit_sound path prompt ns ls l e)
]
