-- ===== src/Base/Glob.antt =====
-- `fnmatch.fnmatch` of Python's standard library, on a POSIX system: `*`, `?` and `[...]`.
use Prim.Native.Nat.{ℕ, zero, suc}
use Prim.Native.String.{String}
use mathlib.Core.Bool.{Bool, true, false, ◌&&◌, ◌||◌, xor}
use mathlib.Core.Option.{Option, none, some}
use mathlib.Core.List.{List, [], ◌∷◌}
use project_os.Base.Tests.{leb, nat_beq, if◌then◌else◌}
use project_os.Base.Lists.{any, length}
use project_os.Base.Text.{codes}

-- `one_of negated ranges` stands for a bracket expression, with its inclusive ranges.
pub data Token : Type 0 where
  star any_one : Token
  literal : ℕ → Token
  one_of : Bool → List (ℕ × ℕ) → Token

-- The ranges of the inside of a bracket; a hyphen at an end stands for itself.
abbrev ranges : List ℕ → List (ℕ × ℕ)
ranges [] = []
ranges (a ∷ []) = (a, a) ∷ []
ranges (a ∷ b ∷ []) = (a, a) ∷ (b, b) ∷ []
ranges (a ∷ b ∷ c ∷ r) =
    let as_range = ranges r in
    let as_char = ranges (b ∷ c ∷ r) in
    if nat_beq b b'-' then (a, c) ∷ as_range else (a, a) ∷ as_char

-- What stands before the first `]`, and what follows it.
abbrev upto_bracket : List ℕ → Option (List ℕ × List ℕ)
upto_bracket [] = none
upto_bracket (c ∷ r) =
    let later = upto_bracket r in
    if nat_beq c b']'
    then some ([], r)
    else elim later [ none ↦ none | some (inside, after) ↦ some (c ∷ inside, after) ]

-- A `]` that comes first belongs to the inside.
abbrev inside_bracket : List ℕ → Option (List ℕ × List ℕ)
inside_bracket [] = none
inside_bracket (c ∷ r) =
    if nat_beq c b']'
    then elim (upto_bracket r) [ none ↦ none | some (inside, after) ↦ some (c ∷ inside, after) ]
    else upto_bracket (c ∷ r)

-- The bracket expression after `[`; none if it is not closed.
abbrev bracket : List ℕ → Option (Token × List ℕ)
bracket [] = none
bracket (c ∷ r) =
    if nat_beq c b'!'
    then elim (inside_bracket r) [
      | none ↦ none
      | some (inside, after) ↦ some (one_of true (ranges inside), after)
    ]
    else elim (inside_bracket (c ∷ r)) [
      | none ↦ none
      | some (inside, after) ↦ some (one_of false (ranges inside), after)
    ]

-- One token for at least one character, so the length of the pattern is fuel enough.
abbrev pub tokens : ℕ → List ℕ → List Token
tokens zero pattern = []
tokens (suc fuel) [] = []
tokens (suc fuel) (c ∷ r) =
    let rest = tokens fuel r in
    if nat_beq c b'*'
    then star ∷ rest
    else if nat_beq c b'?'
    then any_one ∷ rest
    else if nat_beq c b'['
    then elim (bracket r) [
      | none ↦ literal c ∷ rest
      | some (token, after) ↦ token ∷ tokens fuel after
    ]
    else literal c ∷ rest

abbrev in_ranges : ℕ → List (ℕ × ℕ) → Bool
in_ranges c = any (λ range. leb range.0 c && leb c range.1)

-- `star` takes nothing, or one character and stays.
abbrev pub matches : List Token → List ℕ → Bool
matches [] [] = true
matches [] (c ∷ s) = false
matches (star ∷ p) [] = matches p []
matches (star ∷ p) (c ∷ s) = matches p (c ∷ s) || matches (star ∷ p) s
matches (any_one ∷ p) [] = false
matches (any_one ∷ p) (c ∷ s) = matches p s
matches (literal d ∷ p) [] = false
matches (literal d ∷ p) (c ∷ s) = nat_beq c d && matches p s
matches (one_of negated rs ∷ p) [] = false
matches (one_of negated rs ∷ p) (c ∷ s) = xor negated (in_ranges c rs) && matches p s

-- fnmatch.fnmatch(name, pattern), over code points
unfoldable pub glob : List ℕ → List ℕ → Bool
unfolding xor
glob name pattern = matches (tokens (length pattern) pattern) name

unfoldable pub fnmatch : String → String → Bool
unfolding glob
fnmatch name pattern = glob (codes name) (codes pattern)
