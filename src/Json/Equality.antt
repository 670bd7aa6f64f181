-- ===== src/Json/Equality.antt =====
-- Python's `==` on decoded values: numbers by value, whatever their type, and dictionaries whatever
-- their order.
use arch_linux_threadripper.Prelude.{
  ℕ, suc, ◌-◌, ◌*◌, ◌^◌, Bool, true, false, ◌&&◌, Option, none, some, ◌==◌, str_eq,
}
use arch_linux_threadripper.Prelude.Int.{ℤ, pos, negsuc}
use arch_linux_threadripper.Json.{
  Json, null, bool, int, float, infinite, str, arr, obj, Items, nil, cons, Fields, end, field, get,
  fields_length,
}

-- n * 2 ^ k
abbrev pub scaled : ℤ → ℕ → ℤ
scaled (pos n) k = pos (n * 2 ^ k)
scaled (negsuc n) k = negsuc (suc n * 2 ^ k - 1)

abbrev pub eq_ℤ : ℤ → ℤ → Bool
eq_ℤ (pos a) (pos b) = a == b
eq_ℤ (negsuc a) (negsuc b) = a == b
eq_ℤ _ _ = false

-- A number as n / 2 ^ k; True is 1 and False is 0.
abbrev pub number : Json → Option (ℤ × ℕ)
number (int n) = some (n, 0)
number (float m k) = some (m, k)
number (bool true) = some (pos 1, 0)
number (bool false) = some (pos 0, 0)
number _ = none

unfoldable pub number_eq : Option (ℤ × ℕ) → Option (ℤ × ℕ) → Bool
number_eq (some (m, k)) (some (n, j)) = eq_ℤ (scaled m j) (scaled n k)
number_eq _ _ = false

unfoldable pub text_or_number_eq : Json → Json → Bool
text_or_number_eq null null = true
text_or_number_eq (str s) (str t) = str_eq s t
text_or_number_eq (infinite true) (infinite true) = true
text_or_number_eq (infinite false) (infinite false) = true
text_or_number_eq a b = number_eq (number a) (number b)

unfoldable mutual
  unfolding text_or_number_eq number_eq

  pub json_eq : Json → Json → Bool
  json_eq (arr xs) (arr ys) = items_eq xs ys
  json_eq (obj d) (obj e) = fields_length d == fields_length e && fields_within d e
  json_eq a b = text_or_number_eq a b

  pub items_eq : Items → Items → Bool
  items_eq nil nil = true
  items_eq (cons x xs) (cons y ys) = json_eq x y && items_eq xs ys
  items_eq _ _ = false

  -- Every entry of the first is an entry of the second.
  pub fields_within : Fields → Fields → Bool
  fields_within end e = true
  fields_within (field k v d) e =
      elim (get e k) [ none ↦ false | some w ↦ json_eq v w ] && fields_within d e
