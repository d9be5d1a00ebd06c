-- ===== src/Store/Options.antt =====
-- The options of `NewAdapter` in internal/store/adapter.go.
use dbstore.Common.{
  Bool, true, false, Option, none, some, List, [], ◌∷◌, ◌≡◌, refl, ap, ◌∙◌, if◌then◌else◌,
}
use dbstore.Store.Driver.{new_driver_registry}
use dbstore.Store.Directory.{Directory, new_directory}

-- `WithObserver`, of an observer or nil.
pub data AdapterOption (O : Type 0) : Type 0 where
  with_observer : Option O → AdapterOption O

pub record AdapterOptions (O : Type 0) : Type 0 where
  pub observer : Option O
  pub observer_set : Bool

module _ {O : Type 0} where
  -- One option, which may be nil; `none` is the panic of a second observer.
  unfoldable pub apply_option :
      Option (AdapterOption O) → AdapterOptions O → Option (AdapterOptions O)
  apply_option none options = some options
  apply_option (some (with_observer o)) options =
      if options.observer_set then none else some (record { observer = o; observer_set = true })

  unfoldable pub apply_options :
      List (Option (AdapterOption O)) → Option (AdapterOptions O) → Option (AdapterOptions O)
  unfolding apply_option
  apply_options [] options = options
  apply_options (o ∷ os) none = none
  apply_options (o ∷ os) (some options) = apply_options os (apply_option o options)

  abbrev pub is_given : Option O → Bool
  is_given none = false
  is_given (some o) = true

  -- The directory of the adapter, or a panic.
  abbrev build : Option (AdapterOptions O) → Option Directory
  build none = none
  build (some options) = some (new_directory new_driver_registry (is_given options.observer))

  unfoldable pub new_adapter : List (Option (AdapterOption O)) → Option Directory
  unfolding apply_options
  new_adapter os =
      build (apply_options os (some (record { observer = none; observer_set = false })))

  -- The observers among the options.
  abbrev pub observers : List (Option (AdapterOption O)) → List (Option O)
  observers [] = []
  observers (none ∷ os) = observers os
  observers (some (with_observer o) ∷ os) = o ∷ observers os

  -- What `NewAdapter` makes of the observers.
  abbrev pub expected : List (Option O) → Option Directory
  expected [] = some (new_directory new_driver_registry false)
  expected (o ∷ []) = some (new_directory new_driver_registry (is_given o))
  expected _ = none

  after_panic : (os : List (Option (AdapterOption O))) → apply_options os none ≡ none
  unfolding apply_options
  after_panic [] = refl
  after_panic (o ∷ os) = refl

  abbrev expected_after : Option O → List (Option O) → Option Directory
  expected_after o [] = some (new_directory new_driver_registry (is_given o))
  expected_after o (_ ∷ _) = none

  after_observer :
      (os : List (Option (AdapterOption O))) (o : Option O)
      → build (apply_options os (some (record { observer = o; observer_set = true })))
        ≡ expected_after o (observers os)
  unfolding apply_options
  after_observer [] o = refl
  after_observer (none ∷ os) o = after_observer os o
  after_observer (some (with_observer x) ∷ os) o = ap build (after_panic os)

  expected_after_lem :
      (o : Option O) (xs : List (Option O)) → expected_after o xs ≡ expected (o ∷ xs)
  expected_after_lem o [] = refl
  expected_after_lem o (x ∷ xs) = refl

  -- `NewAdapter` panics if two options or more set an observer, also a nil one; nil options do not count.
  -- Otherwise the adapter starts empty, with the observer that was given, if any.
  new_adapter_lem :
      (os : List (Option (AdapterOption O))) → new_adapter os ≡ expected (observers os)
  unfolding new_adapter
  new_adapter_lem [] = refl
  new_adapter_lem (none ∷ os) = new_adapter_lem os
  new_adapter_lem (some (with_observer o) ∷ os) =
      after_observer os o ∙ expected_after_lem o (observers os)
