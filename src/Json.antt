-- ===== src/Json.antt =====
-- The values that Python's `json` module reads and writes, with the dictionary operations and the
-- tests that the program applies to them. A finite float is exact: `float m k` is m / 2 ^ k.
pub mod Laws
pub mod Equality
use arch_linux_threadripper.Prelude.{
  ℕ, zero, suc, ◌*◌, ◌^◌, String, Bool, true, false, not, ◌&&◌, ◌||◌, Option, none, some, List, [],
  ◌∷◌, ◌==◌, leb, if◌then◌else◌, is_some, str_eq, any,
}
use arch_linux_threadripper.Prelude.Int.{ℤ, pos, negsuc}
use arch_linux_threadripper.Prelude.Text.{codes, text_eq}

mutual
  pub data Json : Type 0 where
    null nan : Json
    bool : Bool → Json
    int : ℤ → Json
    float : ℤ → ℕ → Json
    infinite : Bool → Json
    str : String → Json
    arr : Items → Json
    obj : Fields → Json

  pub data Items : Type 0 where
    nil : Items
    cons : Json → Items → Items

  pub data Fields : Type 0 where
    end : Fields
    field : String → Json → Fields → Fields

-- d.get(k)
abbrev pub get : Fields → String → Option Json
get end k = none
get (field j v d) k = if str_eq j k then some v else get d k

-- d.get(k, default)
abbrev pub get_or : Fields → String → Json → Json
get_or d k v = elim (get d k) [ none ↦ v | some w ↦ w ]

-- `k in d`
abbrev pub contains : Fields → String → Bool
contains d k = is_some (get d k)

-- d.pop(k, None)
unfoldable pub pop : Fields → String → Fields
pop end k = end
pop (field j v d) k = let rest = pop d k in if str_eq j k then rest else field j v rest

-- d[k] = v
unfoldable pub put : Fields → String → Json → Fields
put end k v = field k v end
put (field j w d) k v = if str_eq j k then field j v d else field j w (put d k v)

abbrev pub keys : Fields → List String
keys end = []
keys (field k _ d) = k ∷ keys d

abbrev pub mem_str : String → List String → Bool
mem_str s names = any (λ n. str_eq n s) names

-- `set(d) <= names`
abbrev pub keys_within : List String → Fields → Bool
keys_within names end = true
keys_within names (field k _ d) = mem_str k names && keys_within names d

-- `set(d) == names`, for a dictionary, whose keys are distinct
abbrev pub keys_exactly : List String → Fields → Bool
keys_exactly names d = keys_within names d && has_all names d
  where
    has_all : List String → Fields → Bool
    has_all [] d = true
    has_all (n ∷ ns) d = contains d n && has_all ns d

abbrev pub items_length : Items → ℕ
items_length nil = 0
items_length (cons _ xs) = suc (items_length xs)

abbrev pub items_list : Items → List Json
items_list nil = []
items_list (cons x xs) = x ∷ items_list xs

abbrev pub fields_length : Fields → ℕ
fields_length end = 0
fields_length (field _ _ d) = suc (fields_length d)

-- bool(value)
abbrev pub truthy : Json → Bool
truthy null = false
truthy (bool b) = b
truthy (int (pos zero)) = false
truthy (float (pos zero) _) = false
truthy (str String.[]) = false
truthy (arr nil) = false
truthy (obj end) = false
truthy _ = true

-- value == text
abbrev pub eq_str : Json → String → Bool
eq_str (str s) t = str_eq s t
eq_str _ t = false

-- value == n, which holds of True and of 1.0 at 1
abbrev pub eq_nat : Json → ℕ → Bool
eq_nat (int (pos m)) n = m == n
eq_nat (float (pos m) k) n = m == n * 2 ^ k
eq_nat (bool true) n = n == 1
eq_nat (bool false) n = n == 0
eq_nat _ n = false

-- value is True, value is False
abbrev pub is_true : Json → Bool
is_true (bool true) = true
is_true _ = false

abbrev pub is_false : Json → Bool
is_false (bool false) = true
is_false _ = false

-- type(value) is int and low <= value <= high, between natural bounds
abbrev pub int_within : ℕ → ℕ → Json → Bool
int_within low high (int (pos n)) = leb low n && leb n high
int_within low high _ = false

-- A list or a dictionary has no hash: a membership test in a set raises TypeError.
abbrev pub hashable : Json → Bool
hashable (arr _) = false
hashable (obj _) = false
hashable _ = true
