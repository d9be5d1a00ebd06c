-- ===== src/Gen/Config.antt =====
-- cmd/dbstore-gen/config.go. What yaml makes of the file is an argument.
use dbstore.Common.{
  ap, subst, ◌≡◌, ◌≢◌, refl, ◌↔◌, Bool, true, false, String, str_eq, eq_iff, Option, none, some,
  List, [], ◌∷◌, if◌then◌else◌, arith,
}
use dbstore.Gen.Errors.{
  GenError, interface_missing, source_missing, no_backends, empty_name, adapter_missing,
  duplicate_name, Result, ok, err, ◌>>=◌,
}
use dbstore.Gen.Paths.{is_abs, join, dir_of}

pub record ConfigBackend : Type 0 where
  pub name : String
  pub adapter : String

pub record Config : Type 0 where
  pub interface : String
  pub source : String
  pub test : Bool
  pub backends : List ConfigBackend

abbrev pub member : String → List String → Bool
member k [] = false
member k (j ∷ js) = if str_eq j k then true else member k js

-- The loop over the backends, with the names seen so far.
unfoldable pub check_backends : List String → List ConfigBackend → Option GenError
check_backends seen [] = none
check_backends seen (b ∷ bs) =
    let rest = check_backends (b.name ∷ seen) bs in
    if str_eq b.name ""
    then some empty_name
    else if str_eq b.adapter ""
    then some (adapter_missing b.name)
    else if member b.name seen
    then some (duplicate_name b.name)
    else rest

abbrev is_none : List ConfigBackend → Bool
is_none [] = true
is_none (b ∷ bs) = false

unfoldable pub validate : Config → Option GenError
unfolding check_backends
validate cfg =
    if str_eq cfg.interface ""
    then some interface_missing
    else if str_eq cfg.source ""
    then some source_missing
    else if is_none cfg.backends
    then some no_backends
    else check_backends [] cfg.backends

resolve_source : String → Config → Config
resolve_source path cfg =
    if is_abs cfg.source then cfg else record cfg { source = join (dir_of path) cfg.source }

accept : String → Config → Option GenError → Result Config
unfolding resolve_source
accept path cfg none = ok (resolve_source path cfg)
accept path cfg (some e) = err e

-- `loadConfig`, with what reading and decoding the file at the path gives.
unfoldable pub load_config : String → Result Config → Result Config
unfolding accept validate
load_config path decoded = decoded >>= λ cfg. accept path cfg (validate cfg)

-- The backends of a sound configuration: named, with an adapter, under names that differ from each other
-- and from those that were seen.
abbrev pub AreSound : List String → List ConfigBackend → Type 0
AreSound seen [] = Unit {0}
AreSound seen (b ∷ bs) =
    (b.name ≢ "") × (b.adapter ≢ "") × (member b.name seen ≡ false) × AreSound (b.name ∷ seen) bs

abbrev pub IsSound : Config → Type 0
IsSound cfg =
    (cfg.interface ≢ "") × (cfg.source ≢ "") × (cfg.backends ≢ []) × AreSound [] cfg.backends

-- A configuration as it is used: with the source's path from the directory of the file.
abbrev pub IsLoaded : String → Config → Config → Type 0
IsLoaded path cfg loaded =
    (loaded.interface ≡ cfg.interface)
    × (loaded.test ≡ cfg.test)
    × (loaded.backends ≡ cfg.backends)
    × (is_abs cfg.source ≡ true → loaded.source ≡ cfg.source)
    × (is_abs cfg.source ≡ false → loaded.source ≡ join (dir_of path) cfg.source)

check_backends-AreSound :
    (seen : List String) (bs : List ConfigBackend)
    → (check_backends seen bs ≡ none) ↔ AreSound seen bs
unfolding check_backends
check_backends-AreSound seen [] = (λ h. tt, λ h. refl)
check_backends-AreSound seen (b ∷ bs) =
    ground
      (arith, eq_iff b.name "", eq_iff b.adapter "", check_backends-AreSound (b.name ∷ seen) bs)

validate-IsSound : (cfg : Config) → (validate cfg ≡ none) ↔ IsSound cfg
unfolding validate
validate-IsSound cfg =
    ground (
      arith,
      eq_iff cfg.interface "",
      eq_iff cfg.source "",
      check_backends-AreSound [] cfg.backends,
    )

resolved : {a b : Config} → ok a ≡ ok b → a ≡ b
resolved h = cc

resolve_source-IsLoaded :
    (path : String) (cfg loaded : Config)
    → resolve_source path cfg ≡ loaded
    → IsLoaded path cfg loaded
unfolding resolve_source
resolve_source-IsLoaded path cfg loaded h = ground (arith, h)

IsLoaded-resolve_source :
    (path : String) (cfg loaded : Config)
    → IsLoaded path cfg loaded
    → resolve_source path cfg ≡ loaded
unfolding resolve_source
IsLoaded-resolve_source path cfg loaded held = ground (arith, held)

accept-IsLoaded :
    (path : String) (cfg loaded : Config) (problem : Option GenError)
    → (problem ≡ none) ↔ IsSound cfg
    → (accept path cfg problem ≡ ok loaded) ↔ (IsSound cfg × IsLoaded path cfg loaded)
unfolding accept resolve_source
accept-IsLoaded path cfg loaded none sound = (
  λ h. (sound.0 refl, resolve_source-IsLoaded path cfg loaded (resolved h)),
  λ (_, held). ap ok (IsLoaded-resolve_source path cfg loaded held),
)
accept-IsLoaded path cfg loaded (some e) sound =
    (λ h. absurd (cc), λ (s, held). let none_left = sound.1 s in absurd (cc))

-- `loadConfig` returns a configuration exactly when the file decodes to one with an interface, a source and
-- backends, which have names and adapters and no name in common. What it returns is that configuration, with
-- a source that is not absolute put in the directory of the file.
pub load_config-Loads :
    (path : String) (decoded : Result Config) (loaded : Config)
    → (load_config path decoded ≡ ok loaded)
      ↔ ((cfg : Config) × (decoded ≡ ok cfg) × IsSound cfg × IsLoaded path cfg loaded)
unfolding load_config
load_config-Loads path (err e) loaded = (λ h. cc, λ (cfg, same, sound, rest). cc)
load_config-Loads path (ok cfg) loaded =
    let accepted = accept-IsLoaded path cfg loaded (validate cfg) (validate-IsSound cfg) in
    (
      λ h. let (sound, held) = accepted.0 h in (cfg, refl, sound, held),
      λ (c, same, sound, held).
          let this : c ≡ cfg = cc in
          accepted.1 (subst (λ k. IsSound k × IsLoaded path k loaded) this (sound, held)),
    )
