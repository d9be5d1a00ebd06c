-- ===== src/Store/Goroutine/System.antt =====
-- The goroutines of a program over one `Directory`, and the states that they can reach.
use dbstore.Common.{
  ℕ, ◌≡◌, refl, Bool, String, Option, none, some, List, [], ◌∷◌, ◌++◌, get_elem?, set,
}
use dbstore.Store.Driver
use dbstore.Store.Driver.{open_with, DriverRegistry, Builder, registered, new_driver_registry}
use dbstore.Store.Throttle
use dbstore.Store.Throttle.{new_throttle, acquire_check, receive}
use dbstore.Store.Directory.{
  Directory, new_directory, register_begin, register_commit, remove_entry_begin, remove_all_begin,
  acquire, acquire_source, release,
}
use dbstore.Store.Protocol.{Pc, ready, no_call, Choice}
use dbstore.Store.Goroutine.{move}

pub record System : Type 0 where
  pub dir : Directory
  pub open dir use *
  pub threads : List Pc

-- A goroutine starts, one takes a step, or the application registers a driver.
pub data Step (s : System) : System → Type 0 where
  starts : Step s (record s { threads = s.threads ++ ready no_call ∷ [] })
  moves :
      (i : ℕ) (ch : Choice) (p : Pc) {d : Directory} {q : Pc}
      → get_elem? s.threads i ≡ some p
      → move ch s.dir p ≡ some (d, q)
      → Step s (record { dir = d; threads = set s.threads i q })
  registers_driver :
      (name : String) (b : Builder) {r : DriverRegistry}
      → Driver.register name b s.registry ≡ registered r
      → Step s (record { dir = record s.dir { registry = r }; threads = s.threads })

abbrev pub init : Bool → System
init observer = record { dir = new_directory new_driver_registry observer; threads = [] }

pub data Reach (observer : Bool) : System → Type 0 where
  here : Reach observer (init observer)
  next : {s t : System} → Reach observer s → Step s t → Reach observer t

-- From one reachable state to a later one.
pub data Steps (s : System) : System → Type 0 where
  stop : Steps s s
  step : {t u : System} → Steps s t → Step t u → Steps s u

-- An execution of the steps, by turns; a turn that cannot be taken changes nothing.
pub data Turn : Type 0 where
  starting : Turn
  stepping : ℕ → Choice → Turn
  registering : String → Builder → Turn

pub record Run (observer : Bool) : Type 0 where
  pub last : System
  pub reach : Reach observer last

take_step :
    {observer : Bool} (r : Run observer) (i : ℕ) (ch : Choice) (p : Pc)
    → get_elem? r.last.threads i ≡ some p
    → (o : Option (Directory × Pc)) → move ch r.last.dir p ≡ o
    → Run observer
take_step r i ch p e none h = r
take_step r i ch p e (some (d, q)) h = record {
  last = record { dir = d; threads = set r.last.threads i q };
  reach = next r.reach (moves i ch p e h);
}

take_turn :
    {observer : Bool} (r : Run observer) (i : ℕ) (ch : Choice) (o : Option Pc)
    → get_elem? r.last.threads i ≡ o
    → Run observer
unfolding take_step
take_turn r i ch none e = r
take_turn r i ch (some p) e = take_step r i ch p e (move ch r.last.dir p) refl

take_driver :
    {observer : Bool} (r : Run observer) (name : String) (b : Builder) (o : Driver.Registering)
    → Driver.register name b r.last.registry ≡ o
    → Run observer
take_driver r name b (registered g) e = record {
  last = record { dir = record r.last.dir { registry = g }; threads = r.last.threads };
  reach = next r.reach (registers_driver name b e);
}
take_driver r name b _ e = r

turn : {observer : Bool} → Run observer → Turn → Run observer
unfolding take_turn take_driver
turn r starting = record {
  last = record r.last { threads = r.last.threads ++ ready no_call ∷ [] };
  reach = next r.reach starts;
}
turn r (stepping i ch) = take_turn r i ch (get_elem? r.last.threads i) refl
turn r (registering name b) = take_driver r name b (Driver.register name b r.last.registry) refl

abbrev pub initial : (observer : Bool) → Run observer
initial observer = record { last = init observer; reach = here }

unfoldable pub run : {observer : Bool} → Run observer → List Turn → Run observer
unfolding turn move new_directory register_begin register_commit remove_entry_begin remove_all_begin
    acquire acquire_source release open_with new_throttle acquire_check receive Throttle.release
    Driver.register
run r [] = r
run r (t ∷ ts) = run (turn r t) ts
