-- ===== src/Json/Laws.antt =====
-- The laws of dictionaries: what a read returns after a write or a removal.
use arch_linux_threadripper.Prelude.{
  ◌≡◌, refl, String, true, false, none, some, arith, if◌then◌else◌, str_eq, eq_iff, List,
}
use arch_linux_threadripper.Json.{Json, Fields, end, field, get, pop, put, keys_within, mem_str}

pub get-pop : (d : Fields) (k j : String) → get (pop d k) j ≡ (if str_eq k j then none else get d j)
unfolding pop
get-pop end k j = ground arith
get-pop (field i v d) k j = ground (arith, get-pop d k j, eq_iff i k, eq_iff i j, eq_iff k j)

pub get-put :
    (d : Fields) (k j : String) (v : Json)
    → get (put d k v) j ≡ (if str_eq k j then some v else get d j)
unfolding put
get-put end k j v = refl
get-put (field i w d) k j v = ground (arith, get-put d k j v, eq_iff i k, eq_iff i j, eq_iff k j)

pub keys_within-pop :
    (names : List String) (d : Fields) (k : String)
    → keys_within names d ≡ true
    → keys_within names (pop d k) ≡ true
unfolding pop
keys_within-pop names end k h = refl
keys_within-pop names (field i v d) k h = ground (arith, keys_within-pop names d k)

pub keys_within-put :
    (names : List String) (d : Fields) (k : String) (v : Json)
    → keys_within names d ≡ true
    → mem_str k names ≡ true
    → keys_within names (put d k v) ≡ true
unfolding put
keys_within-put names end k v h m = ground arith
keys_within-put names (field i w d) k v h m = ground (arith, keys_within-put names d k v)

-- What is not among the allowed names is not a key.
pub get_outside :
    (names : List String) (d : Fields) (k : String)
    → keys_within names d ≡ true
    → mem_str k names ≡ false
    → get d k ≡ none
get_outside names end k h m = refl
get_outside names (field i v d) k h m = ground (arith, get_outside names d k, eq_iff i k)

pub ruleset dict_laws = (get-pop, get-put)
