-- ===== src/Gen/Files.antt =====
-- The files that cmd/dbstore-gen/main.go writes. What the operating system says is an argument.
pub mod Kept
pub mod There
pub mod Again
use dbstore.Common.{
  ◌≡◌, Bool, true, false, String, Option, none, some, List, [], ◌∷◌, lookup, insert, if◌then◌else◌,
}
use dbstore.Gen.Errors.{GenError, stat_failed, write_failed, render_failed, Result, ok, err}

-- Files with what is in them.
abbrev pub Files : Type 0
Files = List (String × String)

pub record Os : Type 0 where
  -- does `os.Stat` fail, other than that there is no such file?
  pub stat_fails : String → Bool
  -- does `os.WriteFile` fail, and what of the text is in the file then, if there is one?
  pub write_fails : String → Bool
  pub part : String → String → Option String

-- The files, and the error that ended the run.
abbrev pub Outcome : Type 0
Outcome = Files × Option GenError

infixl 5 ◌>>>◌
abbrev pub ◌>>>◌ : Outcome → (Files → Outcome) → Outcome
(fs, none) >>> next = next fs
(fs, some e) >>> next = (fs, some e)

abbrev put : String → Option String → Files → Files
put path none fs = fs
put path (some t) fs = insert path t fs

-- `os.WriteFile`
unfoldable pub write_file : Os → String → String → Files → Outcome
write_file os path t fs =
    if os.write_fails path
    then (put path (os.part path t) fs, some (write_failed path))
    else (insert path t fs, none)

-- A text that was rendered, or could not be, is written.
unfoldable pub write_rendered : Os → String → Result String → Files → Outcome
unfolding write_file
write_rendered os path (err e) fs = (fs, some (render_failed path))
write_rendered os path (ok t) fs = write_file os path t fs

abbrev if_missing : Os → String → Result String → Files → Option String → Outcome
if_missing os path rendered fs (some t) = (fs, none)
if_missing os path rendered fs none = write_rendered os path rendered fs

unfoldable pub write_if_missing : Os → String → Result String → Files → Outcome
unfolding write_rendered
write_if_missing os path rendered fs =
    if os.stat_fails path
    then (fs, some (stat_failed path))
    else if_missing os path rendered fs (lookup path fs)

-- A step for each of the items, up to the first that fails.
unfoldable pub each : {A : Type 0} → (A → Files → Outcome) → List A → Files → Outcome
each f [] fs = (fs, none)
each f (x ∷ xs) fs = f x fs >>> each f xs
