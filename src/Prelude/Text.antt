-- ===== src/Prelude/Text.antt =====
-- Python's text operations that the program uses: f-strings, `str(int)`, `str.upper`, `sorted`.
use Prim.Native.Nat.{ℕ, zero, suc, ◌-◌, ◌/◌, ◌%◌, Ordering}
use Prim.Native.Char.{Char, code}
use Prim.Native.String
use Prim.Native.String.{String, char_at}
use mathlib.Core.Bool.{Bool, true, false, ◌&&◌}
use mathlib.Core.List.{List, [], ◌∷◌}
use semaforo.Prelude.Tests.{ltb, leb, if◌then◌else◌}
use semaforo.Prelude.Int.{ℤ, pos, negsuc}

-- The two parts of an f-string, one behind the other.
infixr 66 ◌+++◌
abbrev pub ◌+++◌ : String → String → String
◌+++◌ = String.◌++◌

-- An upper-case letter for a lower-case one. Only ASCII letters change.
abbrev pub upper_char : Char → Char
upper_char c =
    if leb b'a' (code c) && leb (code c) b'z'
    then char_at "ABCDEFGHIJKLMNOPQRSTUVWXYZ" (code c - b'a')
    else c

unfoldable pub upper : String → String
upper String.[] = String.[]
upper (String.◌∷◌ c s) = String.◌∷◌ (upper_char c) (upper s)

-- The decimal digits of `n` before `acc`; a number has no more digits than its size plus one.
unfoldable pub digits_before : ℕ → ℕ → String → String
digits_before zero n acc = acc
digits_before (suc fuel) n acc =
    let here = String.◌∷◌ (char_at "0123456789" (n % 10)) acc in
    let rest = digits_before fuel (n / 10) here in if ltb n 10 then here else rest

unfoldable pub show_int : ℤ → String
unfolding digits_before
show_int (pos n) = digits_before (suc n) n ""
show_int (negsuc n) = "-" +++ digits_before (suc (suc n)) (suc n) ""

-- `a or b` on texts tests for the empty one.
abbrev pub is_empty : String → Bool
is_empty String.[] = true
is_empty (String.◌∷◌ _ _) = false

-- sorted(xs), by code points
unfoldable pub insert_sorted : String → List String → List String
insert_sorted x [] = x ∷ []
insert_sorted x (y ∷ ys) = elim (String.compare y x) [
  | Ordering.gt ↦ x ∷ y ∷ ys
  | _ ↦ y ∷ insert_sorted x ys
]

unfoldable pub sorted : List String → List String
unfolding insert_sorted
sorted [] = []
sorted (x ∷ xs) = insert_sorted x (sorted xs)
