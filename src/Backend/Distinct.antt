-- ===== src/Backend/Distinct.antt =====
-- lib/workstation/hyperloom_latency.py, `_series`: names that do not come twice.
use arch_linux_threadripper.Prelude.{
  ◌≡◌, refl, String, false, ◌||◌, List, [], ◌∷◌, ◌++◌, arith, All, All-append, eq_iff,
}
use arch_linux_threadripper.Json.{mem_str}

-- No name comes twice.
abbrev pub AreDistinct : List String → Type 0
AreDistinct [] = Unit
AreDistinct (n ∷ rest) = (mem_str n rest ≡ false) × AreDistinct rest

-- No name is among the others.
abbrev pub AreApart : List String → List String → Type 0
AreApart seen names = All (λ n. mem_str n seen ≡ false) names

pub apart_of_cons :
    (n : String) (seen names : List String)
    → AreApart (n ∷ seen) names
    → AreApart seen names × (mem_str n names ≡ false)
apart_of_cons n seen [] h = (tt, refl)
apart_of_cons n seen (m ∷ rest) (e, h) =
    let (apart, new) = apart_of_cons n seen rest h in
    ((ground arith, apart), ground (arith, eq_iff n m, eq_iff m n))

mem_str-append :
    (n : String) (a b : List String) → mem_str n (a ++ b) ≡ (mem_str n a || mem_str n b)
mem_str-append n [] b = refl
mem_str-append n (m ∷ a) b = ground (arith, mem_str-append n a b)

pub apart_of_append :
    (names a b : List String) → AreApart (a ++ b) names → AreApart a names × AreApart b names
apart_of_append [] a b h = (tt, tt)
apart_of_append (n ∷ rest) a b (e, h) =
    let (left, right) = apart_of_append rest a b h in
    let told = mem_str-append n a b in ((ground arith, left), (ground arith, right))

pub apart_append :
    (seen a b : List String) → AreApart seen a → AreApart seen b → AreApart seen (a ++ b)
apart_append seen a b = All-append (λ n. mem_str n seen ≡ false) a b

pub distinct_append :
    (a b : List String) → AreDistinct a → AreDistinct b → AreApart a b → AreDistinct (a ++ b)
distinct_append [] b h g apart = g
distinct_append (n ∷ a) b (new, h) g apart =
    let (rest, other) = apart_of_cons n a b apart in
    let told = mem_str-append n a b in (ground arith, distinct_append a b h g rest)
