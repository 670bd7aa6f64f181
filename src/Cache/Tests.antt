-- ===== src/Cache/Tests.antt =====
-- infrastructure/hyperloom/sglang-owner-adapter/cache_policy_model.py: the pool on concrete menus.
use arch_linux_threadripper.Prelude.{
  ℕ, ◌≤◌, ◌≡◌, refl, true, false, Option, none, some, List, [], ◌∷◌, Result, ok, err, map, All, ◌⊎◌,
}
use arch_linux_threadripper.Prelude.Int.{pos, negsuc}
use arch_linux_threadripper.Cache.Pool.{
  Node, Link, Pool, PoolError, is_candidate, exhausted, bad_cap, unlimited, evict, new_pool, update,
  drop_value, resident, used, pool_size, least, evict_lru, allocate, find_link, nearest_below,
  link_or_add, chain_node, node_at, trim_path, insert,
}
use arch_linux_threadripper.Cache.Requests.{
  is_hit, best_hit, match_prompt, stash_chunks, add_pin, discard_pin, prefill, finish, Running,
  prefill_all, by_completion, finish_all, latest, group, Row, requests_of, replay_groups, replay,
}
use arch_linux_threadripper.Cache.Accounting.{replay-Fits}
use arch_linux_threadripper.Cache.Held.{Evicts, evict_lru_victim}
use arch_linux_threadripper.Cache.Matching.{IsBestHit, best_hit-IsBestHit}

-- Two prompts of three chunks each on one salt: the second finds what the first left.
abbrev rows : ℕ → Option Row
rows o = some (record { salt = "s"; input_tokens = 5000; completion = 10 })

abbrev cached_of : Result PoolError (Pool × List Running) → List ℕ
cached_of (ok (p, rs)) = map (λ (r : Running). r.cached) rs
cached_of (err e) = []

abbrev pool_of : Result PoolError (Pool × List Running) → Pool
pool_of (ok (p, rs)) = p
pool_of (err e) = record {
  cap = unlimited;
  finish_new_leaf = false;
  clock = 0;
  nodes = [];
  chains = [];
  pinned = [];
  events = [];
}

abbrev running_of : Result PoolError (Pool × List Running) → List Running
running_of (ok (p, rs)) = rs
running_of (err e) = []

second_is_warm :
    cached_of (replay rows false ((0 ∷ []) ∷ (1 ∷ []) ∷ []) (negsuc 0) false) ≡ 0 ∷ 4096 ∷ []
unfolding replay new_pool replay_groups requests_of group prefill_all prefill match_prompt best_hit
    allocate used resident stash_chunks insert chain_node link_or_add find_link nearest_below
    trim_path finish_all by_completion latest finish update node_at add_pin discard_pin
second_is_warm = refl

cap_zero : new_pool (pos 0) true ≡ err bad_cap
unfolding new_pool
cap_zero = refl

abbrev outcome : Result PoolError (Pool × List Running)
outcome = replay rows false ((0 ∷ []) ∷ (1 ∷ []) ∷ []) (negsuc 0) false

outcome_ok : outcome ≡ ok (pool_of outcome, running_of outcome)
unfolding replay new_pool replay_groups requests_of group prefill_all prefill match_prompt best_hit
    allocate used resident stash_chunks insert chain_node link_or_add find_link nearest_below
    trim_path finish_all by_completion latest finish update node_at add_pin discard_pin
outcome_ok = refl

replay-Fits_example : used (pool_of outcome) ≤ pool_size
replay-Fits_example =
    replay-Fits rows false ((0 ∷ []) ∷ (1 ∷ []) ∷ []) (negsuc 0) false (pool_of outcome)
      (running_of outcome) outcome_ok

-- Two resident states, of which the newer one is locked.
abbrev older : Node
older = record { path = "s"; position = 2048; parent = none; value = true; locked = false; mru = 1 }

abbrev newer : Node
newer = record {
  path = "s";
  position = 4096;
  parent = some 0;
  value = true;
  locked = true;
  mru = 2;
}

abbrev links : List Link
links =
    record { path = "s"; position = 2048; node = 0 }
    ∷ record { path = "s"; position = 4096; node = 1 }
    ∷ []

abbrev small : Pool
small = record {
  cap = unlimited;
  finish_new_leaf = true;
  clock = 3;
  nodes = older ∷ newer ∷ [];
  chains = links;
  pinned = [];
  events = [];
}

abbrev evicted : Pool
evicted = record small { nodes = drop_value older ∷ newer ∷ []; events = evict "s" 2048 ∷ [] }

small_evicts : evict_lru small ≡ ok evicted
unfolding evict_lru least update
small_evicts = refl

evict_lru_victim_example :
    ((p' : Pool) × (evict_lru small ≡ ok p') × Evicts small p')
    ⊎ ((evict_lru small ≡ err exhausted) × All (λ (n : Node). is_candidate n ≡ false) small.nodes)
evict_lru_victim_example = evict_lru_victim small

all_locked_fails : evict_lru (record small { nodes = newer ∷ [] }) ≡ err exhausted
unfolding evict_lru least
all_locked_fails = refl

deepest_hit :
    best_hit "s" 4097 small.nodes links ≡ some (record { path = "s"; position = 4096; node = 1 })
unfolding best_hit
deepest_hit = refl

best_hit-IsBestHit_example :
    ((l : Link) × (best_hit "s" 4097 small.nodes links ≡ some l)
      × IsBestHit "s" 4097 small.nodes links l)
    ⊎ ((best_hit "s" 4097 small.nodes links ≡ none)
        × All (λ (k : Link). is_hit "s" 4097 small.nodes k ≡ false) links)
best_hit-IsBestHit_example = best_hit-IsBestHit "s" 4097 small.nodes links

-- One request runs while a second one is prefilled on the same salt.
abbrev pool_started : Pool
pool_started = record {
  cap = unlimited;
  finish_new_leaf = false;
  clock = 1;
  nodes = [];
  chains = [];
  pinned = [];
  events = [];
}

abbrev prefilled_pool : Result PoolError (Pool × ℕ × ℕ) → Pool
prefilled_pool (ok (p, cached, held)) = p
prefilled_pool (err e) = pool_started

abbrev first_running : Pool
first_running = prefilled_pool (prefill 1 "s" 5000 pool_started)

abbrev second_running : Pool
second_running = prefilled_pool (prefill 2 "s" 7000 first_running)
