-- ===== src/Store/Goroutine/Stale.antt =====
-- A `Source` is bound to the entry that it captured: internal/store/source.go.
use dbstore.Common.{ℕ, ◌≡◌, ◌≢◌, refl, ◌∙◌, true, some, String, arith, get_elem?, set}
use dbstore.Store.Directory.{Directory, register_begin}
use dbstore.Store.Driver.{open_with}
use dbstore.Store.Goroutine.System.{
  System, Step, starts, moves, registers_driver, Steps, stop, step,
}
use dbstore.Store.Goroutine.Gone.{move-IsSettled}
use dbstore.Store.Driver
use dbstore.Store.Driver.{register}
use dbstore.Store.Config.{SourceConfig}
use dbstore.Store.Protocol.{Reply, registers, calls, ready, in_open}
use dbstore.Store.Goroutine.{move}

frozen-register :
    (name : String) (b : Driver.Builder) (g : Driver.DriverRegistry) {g' : Driver.DriverRegistry}
    → g.frozen ≡ true
    → register name b g ≡ Driver.registered g'
    → ⊥
unfolding register
frozen-register name b g f h = ground arith

Step-frozen :
    {s t : System}
    → Step s t
    → s.registry.frozen ≡ true
    → (t.registry.frozen ≡ true) × (t.registry.builders ≡ s.registry.builders)
Step-frozen starts f = (f, refl)
Step-frozen (moves i ch p at_i e) f = let (same, stays) = move-IsSettled ch _ p e in (stays f, same)
Step-frozen {s} (registers_driver name b e) f = absurd (frozen-register name b s.registry f e)

Steps-frozen :
    {s t : System}
    → Steps s t
    → s.registry.frozen ≡ true
    → (t.registry.frozen ≡ true) × (t.registry.builders ≡ s.registry.builders)
Steps-frozen stop f = (f, refl)
Steps-frozen (step ss st) f =
    let (f', b) = Steps-frozen ss f in let (f'', b') = Step-frozen st f' in (f'', b' ∙ b)

-- A `register` that goes on to the driver has frozen the registry, and left its drivers alone.
begin-freezes :
    (name : String) (cfg : SourceConfig) (r : Reply) (d : Directory) {d' : Directory}
    → move (calls (registers name cfg)) d (ready r) ≡ some (d', in_open name cfg)
    → (d'.registry.frozen ≡ true) × (d'.registry.builders ≡ d.registry.builders)
unfolding move register_begin
begin-freezes name cfg r d h = ground arith

-- After the step of a `register` that gets past its first checks and goes on to the driver's `Open`, the
-- drivers are fixed: in every later state they are those from before that step, and registering a driver
-- under any name is refused.
pub drivers_fixed :
    {t : System} (s : System) (i : ℕ) (name : String) (cfg : SourceConfig) (r : Reply)
    (d : Directory)
    → get_elem? s.threads i ≡ some (ready r)
    → move (calls (registers name cfg)) s.dir (ready r) ≡ some (d, in_open name cfg)
    → Steps (record { dir = d; threads = set s.threads i (in_open name cfg) }) t
    → (t.registry.builders ≡ s.registry.builders)
      × ((driver : String) (b : Driver.Builder) (g : Driver.DriverRegistry)
          → register driver b t.registry ≢ Driver.registered g)
drivers_fixed {t} s i name cfg r d at_i begins ss =
    let (frozen, same) = begin-freezes name cfg r s.dir begins in
    let (still, kept) = Steps-frozen ss frozen in
    (kept ∙ same, λ driver b g h. frozen-register driver b t.registry still h)
