-- ===== src/WorkItem/Paths.antt =====
-- The path patterns of app/orchestration/work_item.py: `_forbidden_covers_allowed` and its helpers.
-- A path is the list of its code points.
use project_os.Base.{
  ℕ, Bool, true, false, not, ◌&&◌, ◌||◌, List, [], ◌∷◌, ◌++◌, ◌==◌, any, elem, nat_eq, codes, glob,
  is_empty, map, if◌then◌else◌,
}

abbrev pub slash : ℕ
slash = b'/'

abbrev pub asterisk : ℕ
asterisk = b'*'

-- s.replace("\\", "/")
abbrev pub to_slashes : List ℕ → List ℕ
to_slashes = map (λ c. if c == b'\\' then slash else c)

-- s.lstrip("/")
abbrev pub lstrip_slash : List ℕ → List ℕ
lstrip_slash [] = []
lstrip_slash (c ∷ s) = if c == slash then lstrip_slash s else c ∷ s

-- s.rstrip("/")
abbrev pub rstrip_slash : List ℕ → List ℕ
rstrip_slash [] = []
rstrip_slash (c ∷ s) =
    let rest = rstrip_slash s in if c == slash && is_empty rest then [] else c ∷ rest

-- s.startswith(prefix)
abbrev pub begins : List ℕ → List ℕ → Bool
begins s [] = true
begins [] (d ∷ p) = false
begins (c ∷ s) (d ∷ p) = c == d && begins s p

abbrev cut : List ℕ → List ℕ → List ℕ
cut s [] = s
cut [] (d ∷ p) = []
cut (c ∷ s) (d ∷ p) = cut s p

-- s.removeprefix(prefix)
abbrev pub remove_prefix : List ℕ → List ℕ → List ℕ
remove_prefix s prefix = if begins s prefix then cut s prefix else s

abbrev pub same : List ℕ → List ℕ → Bool
same s t = begins s t && begins t s

-- s.endswith(suffix)
abbrev pub ends : List ℕ → List ℕ → Bool
ends [] suffix = is_empty suffix
ends (c ∷ s) suffix = same (c ∷ s) suffix || ends s suffix

-- s.replace("**", "*")
abbrev pub single_stars : List ℕ → List ℕ
single_stars [] = []
single_stars (c ∷ []) = c ∷ []
single_stars (c ∷ d ∷ s) =
    let after = single_stars s in
    let next = single_stars (d ∷ s) in
    if c == asterisk && d == asterisk then asterisk ∷ after else c ∷ next

-- _has_glob; the test `any(token in path for token in ("*", "?", "[", "]"))` too
abbrev pub has_glob : List ℕ → Bool
has_glob = any (λ c. elem c (b'*' ∷ b'?' ∷ b'[' ∷ b']' ∷ []))

-- all but the last three characters, after which the pattern ends with "/**"
abbrev drop_last3 : List ℕ → List ℕ
drop_last3 [] = []
drop_last3 (c ∷ []) = []
drop_last3 (c ∷ d ∷ []) = []
drop_last3 (c ∷ d ∷ e ∷ []) = []
drop_last3 (c ∷ d ∷ e ∷ f ∷ s) = c ∷ drop_last3 (d ∷ e ∷ f ∷ s)

-- _normalize_path_pattern
unfoldable pub normalize_path_pattern : List ℕ → List ℕ
normalize_path_pattern value =
    let raw = lstrip_slash (remove_prefix (to_slashes value) (codes "workspace/")) in
    let bare = rstrip_slash raw in
    let rooted =
      if ends raw (slash ∷ []) && not (is_empty bare) then bare ++ codes "/**" else bare in
    if not (is_empty rooted) && ends rooted (codes "/**/**") then drop_last3 rooted else rooted

-- what stands before the first of the four glob characters
abbrev before_glob : List ℕ → List ℕ
before_glob [] = []
before_glob (c ∷ s) =
    let rest = before_glob s in if elem c (b'*' ∷ b'?' ∷ b'[' ∷ b']' ∷ []) then [] else c ∷ rest

-- _literal_prefix
unfoldable pub literal_prefix : List ℕ → List ℕ
literal_prefix pattern = rstrip_slash (before_glob pattern)

-- _pattern_matches
unfoldable pub pattern_matches : List ℕ → List ℕ → Bool
unfolding glob
pattern_matches pattern path =
    let normalized = if ends pattern (slash ∷ []) then pattern ++ codes "**" else pattern in
    any (λ candidate. glob candidate normalized || glob candidate (single_stars normalized))
      (path ∷ (codes "workspace/" ++ path) ∷ [])

-- _forbidden_covers_allowed
unfoldable pub forbidden_covers_allowed : List ℕ → List ℕ → Bool
unfolding normalize_path_pattern literal_prefix pattern_matches
forbidden_covers_allowed allowed forbidden =
    let left = normalize_path_pattern allowed in
    let right = normalize_path_pattern forbidden in
    let allowed_prefix = literal_prefix left in
    let forbidden_root = rstrip_slash (drop_last3 right) in
    if is_empty left || is_empty right
    then false
    else if not (has_glob left)
    then pattern_matches right left
    else if same left right
    then true
    else if is_empty allowed_prefix
    then has_glob right && (same right (codes "*") || same right (codes "**"))
    else if same right (codes "**")
    then true
    else if not (ends right (codes "/**"))
    then false
    else if is_empty forbidden_root
    then true
    else same allowed_prefix forbidden_root || begins allowed_prefix (forbidden_root ++ slash ∷ [])

-- fnmatch.fnmatch(path, pattern.replace("**", "*"))
unfoldable pub within_pattern : List ℕ → List ℕ → Bool
unfolding glob
within_pattern path pattern = glob path (single_stars pattern)
