-- ===== src/Gen/Paths.antt =====
-- What cmd/dbstore-gen uses of package path/filepath, where paths are separated by slashes.
use Prim.Native.Char.{Char, code}
use dbstore.Common.{◌<>◌, ◌==◌, Bool, false, String, str_eq, List, [], ◌∷◌, if◌then◌else◌, ◌||◌}

abbrev is_slash : String → Bool
is_slash String.[] = false
is_slash (String.◌∷◌ c s) = code c == b'/'

abbrev extend : Char → List String → List String
extend c [] = String.◌∷◌ c "" ∷ []
extend c (part ∷ parts) = String.◌∷◌ c part ∷ parts

-- The parts between slashes, at least one.
unfoldable pub split_slash : String → List String
split_slash String.[] = "" ∷ []
split_slash (String.◌∷◌ c s) =
    let parts = split_slash s in if code c == b'/' then "" ∷ parts else extend c parts

abbrev join_slash : List String → String
join_slash [] = ""
join_slash (part ∷ []) = part
join_slash (part ∷ more ∷ parts) = part <> ("/" <> join_slash (more ∷ parts))

-- `..` takes back the last part that was kept, unless there is none, or it is a `..` itself.
abbrev up : Bool → List String → List String
up rooted [] = if rooted then [] else ".." ∷ []
up rooted (last ∷ kept) = if str_eq last ".." then ".." ∷ last ∷ kept else kept

abbrev keep : Bool → String → List String → List String
keep rooted part kept =
    if str_eq part "" || str_eq part "."
    then kept
    else if str_eq part ".."
    then up rooted kept
    else part ∷ kept

-- The parts that are kept, the last one first.
unfoldable pub kept_parts : Bool → List String → List String → List String
kept_parts rooted kept [] = kept
kept_parts rooted kept (part ∷ parts) = kept_parts rooted (keep rooted part kept) parts

reverse_onto : List String → List String → List String
reverse_onto [] ys = ys
reverse_onto (x ∷ xs) ys = reverse_onto xs (x ∷ ys)

abbrev or_dot : String → String
or_dot s = if str_eq s "" then "." else s

-- `filepath.Clean`
unfoldable pub clean : String → String
unfolding split_slash kept_parts reverse_onto
clean path =
    let rooted = is_slash path in
    let parts = join_slash (reverse_onto (kept_parts rooted [] (split_slash path)) []) in
    if rooted then "/" <> parts else or_dot parts

-- `filepath.IsAbs`
abbrev pub is_abs : String → Bool
is_abs path = is_slash path

-- `filepath.Join` of two elements
unfoldable pub join : String → String → String
unfolding clean
join dir name =
    if str_eq dir ""
    then (if str_eq name "" then "" else clean name)
    else clean (dir <> ("/" <> name))

-- The parts but the last.
abbrev but_last : List String → List String
but_last [] = []
but_last (part ∷ []) = []
but_last (part ∷ more ∷ parts) = part ∷ but_last (more ∷ parts)

-- `filepath.Dir`: the path up to its last slash, cleaned
unfoldable pub dir_of : String → String
unfolding clean
dir_of path = elim (but_last (split_slash path)) [
  | [] ↦ "."
  | part ∷ parts ↦ clean (join_slash (part ∷ parts) <> "/")
]

-- The slashes at the end go: parts from the last one on, which is empty where there is a slash.
last_named : String → List String → String
last_named found [] = found
last_named found (part ∷ parts) =
    let rest = last_named (if str_eq part "" then found else part) parts in rest

-- `filepath.Base`
unfoldable pub base_of : String → String
unfolding last_named
base_of path =
    if str_eq path ""
    then "."
    else let name = last_named "" (split_slash path) in if str_eq name "" then "/" else name
