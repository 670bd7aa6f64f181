-- ===== src/Prelude/Text.antt =====
-- Text as code points and bytes as numbers, where the program walks them.
use Prim.Native.Nat.{ℕ, zero, suc, ◌+◌, ◌/◌, ◌%◌, ◌≤◌}
use Prim.Native.Char.{code}
use Prim.Native.String.{String}
use mathlib.Core.Path.{◌≡◌, refl}
use mathlib.Core.Bool.{Bool, true, false, ◌&&◌, ◌||◌}
use mathlib.Core.List.{List, [], ◌∷◌, ◌++◌}
use native.Mathlib.Omega.{arith}
use arch_linux_threadripper.Prelude.Tests.{ltb, ◌==◌, if◌then◌else◌}
use arch_linux_threadripper.Prelude.Lists.{all, length}

abbrev pub codes : String → List ℕ
codes String.[] = []
codes (String.◌∷◌ c s) = code c ∷ codes s

abbrev pub text_eq : List ℕ → List ℕ → Bool
text_eq [] [] = true
text_eq (a ∷ s) (b ∷ t) = a == b && text_eq s t
text_eq _ _ = false

pub text_eq_refl : (s : List ℕ) → text_eq s s ≡ true
text_eq_refl [] = refl
text_eq_refl (a ∷ s) = ground (arith, text_eq_refl s)

pub text_eq→eq : (s t : List ℕ) → text_eq s t ≡ true → s ≡ t
text_eq→eq [] [] h = refl
text_eq→eq [] (b ∷ t) h = cc
text_eq→eq (a ∷ s) [] h = cc
text_eq→eq (a ∷ s) (b ∷ t) h = ground (arith, text_eq→eq s t)

-- `s.startswith(prefix)`
abbrev pub has_prefix : List ℕ → List ℕ → Bool
has_prefix [] s = true
has_prefix (a ∷ p) [] = false
has_prefix (a ∷ p) (b ∷ s) = a == b && has_prefix p s

abbrev pub is_ascii : List ℕ → Bool
is_ascii = all (λ c. ltb c 128)

abbrev pub has_suffix : List ℕ → List ℕ → Bool
has_suffix p [] = text_eq p []
has_suffix p (a ∷ s) = text_eq p (a ∷ s) || has_suffix p s

-- s.encode()
abbrev pub utf8_char : ℕ → List ℕ
utf8_char c =
    if ltb c 0x80
    then c ∷ []
    else if ltb c 0x800
    then (0xc0 + c / 64) ∷ (0x80 + c % 64) ∷ []
    else if ltb c 0x10000
    then (0xe0 + c / 4096) ∷ (0x80 + c / 64 % 64) ∷ (0x80 + c % 64) ∷ []
    else (0xf0 + c / 262144) ∷ (0x80 + c / 4096 % 64) ∷ (0x80 + c / 64 % 64) ∷ (0x80 + c % 64) ∷ []

abbrev pub utf8 : List ℕ → List ℕ
utf8 [] = []
utf8 (c ∷ s) = utf8_char c ++ utf8 s

-- str(n) for a natural number, the digits pushed before `later`; `suc n` rounds are enough for n.
unfoldable pub decimal_from : ℕ → ℕ → List ℕ → List ℕ
decimal_from zero n later = later
decimal_from (suc fuel) n later =
    let digits : List ℕ = (0x30 + n % 10) ∷ later in
    let rest = decimal_from fuel (n / 10) digits in if n / 10 == 0 then digits else rest

abbrev pub decimal : ℕ → List ℕ
decimal n = decimal_from (n + 1) n []

-- s[:n]
unfoldable pub first_chars : ℕ → String → String
first_chars zero s = String.[]
first_chars (suc n) String.[] = String.[]
first_chars (suc n) (String.◌∷◌ c s) = String.◌∷◌ c (first_chars n s)

pub length-first_chars : (n : ℕ) (s : String) → length (codes (first_chars n s)) ≤ n
unfolding first_chars
length-first_chars zero s = omega arith
length-first_chars (suc n) String.[] = omega arith
length-first_chars (suc n) (String.◌∷◌ c s) = omega (arith, length-first_chars n s)
