-- ===== src/Base/Sorting.antt =====
-- `sorted` on texts, and `str` of a number.
use Prim.Native.Nat.{ℕ, zero, suc, ◌/◌, ◌%◌}
use Prim.Native.String.{String, compare, ◌++◌}
use mathlib.Core.Path.{◌≡◌, refl}
use mathlib.Core.Bool.{◌||◌}
use mathlib.Core.List.{List, [], ◌∷◌}
use native.Mathlib.Omega.{arith}
use text.Mathlib.Text.{is_le}
use project_os.Base.Tests.{ltb, if◌then◌else◌}
use project_os.Base.Equality.{◌==◌, string_eq}
use project_os.Base.Members.{elem}

abbrev insert_sorted : String → List String → List String
insert_sorted s [] = s ∷ []
insert_sorted s (t ∷ rest) =
    let later = insert_sorted s rest in if is_le (compare s t) then s ∷ t ∷ rest else t ∷ later

-- sorted(texts)
abbrev pub sorted : List String → List String
sorted [] = []
sorted (s ∷ rest) = insert_sorted s (sorted rest)

elem-insert_sorted :
    (key s : String) (texts : List String)
    → elem key (insert_sorted s texts) ≡ (key == s || elem key texts)
elem-insert_sorted key s [] = refl
elem-insert_sorted key s (t ∷ texts) = ground (arith, elem-insert_sorted key s texts)

pub elem-sorted : (key : String) (texts : List String) → elem key (sorted texts) ≡ elem key texts
elem-sorted key [] = refl
elem-sorted key (s ∷ texts) =
    ground (arith, elem-insert_sorted key s (sorted texts), elem-sorted key texts)

abbrev figures : List String
figures = "0" ∷ "1" ∷ "2" ∷ "3" ∷ "4" ∷ "5" ∷ "6" ∷ "7" ∷ "8" ∷ "9" ∷ []

abbrev nth : List String → ℕ → String
nth [] n = ""
nth (s ∷ rest) zero = s
nth (s ∷ rest) (suc n) = nth rest n

-- A number has fewer digits than the fuel.
abbrev digits : ℕ → ℕ → String
digits zero n = ""
digits (suc fuel) n =
    let before = digits fuel (n / 10) in
    if ltb n 10 then nth figures n else before ++ nth figures (n % 10)

-- str(n)
unfoldable pub decimal : ℕ → String
decimal n = digits (suc n) n

-- f"{n:02d}"
unfoldable pub two_digits : ℕ → String
unfolding decimal
two_digits n = if ltb n 10 then "0" ++ decimal n else decimal n
