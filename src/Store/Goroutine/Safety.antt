-- ===== src/Store/Goroutine/Safety.antt =====
-- What a program that uses one `Directory` from many goroutines can rely on.
use dbstore.Common.{
  ℕ, suc, ◌+◌, ◌≤◌, ◌<◌, ◌≡◌, refl, Bool, true, false, some, List, [], ◌++◌, String, arith, ltb,
  if◌then◌else◌, count, ids, pos, get_elem?, total, le-total,
}
use dbstore.Store.Throttle.{Throttle, unlimited, sem}
use dbstore.Store.Directory.{Entry, Lifecycle}
use dbstore.Store.Protocol.{closed_all, Pc, ready}
use dbstore.Store.Goroutine.System.{System, Reach}
use dbstore.Store.Goroutine.Ownership.{holds}
use dbstore.Store.Goroutine.Locks.{in_opening}
use dbstore.Store.Goroutine.InFlight.{in_flight, has_slot}
use dbstore.Store.Goroutine.Quiet.{closes}
use dbstore.Store.Goroutine.Shutdown.{has_shut}
use dbstore.Store.Goroutine.Keys.{adds, drops, occurs}
use dbstore.Store.Goroutine.Gauge.{observed, grants, completions}
use dbstore.Store.Goroutine.Invariant.{
  Inv, Reach-Inv, all_reserved, all_unreserved, nothing_reserved, nothing_unreserved,
}

module _ {observer : Bool} {s : System} (r : Reach observer s) where
  -- Whatever the goroutines do, each client that a driver has opened is in exactly one place: it is
  -- in the map, or closed once, or it is one goroutine's to publish or to close, and then only that
  -- goroutine's. A number that no `Open` has returned yet is nowhere.
  pub client_in_one_place :
      (c : ℕ)
      → count c (ids s.entries) + count c s.closed_clients + total (holds c) s.threads
        ≡ (if ltb c s.next_client then 1 else 0)
  client_in_one_place = (Reach-Inv r).owner

  -- While a goroutine is anywhere between the acquire of an entry and its release, in `fn` above all,
  -- the client of the entry has not been closed, and no goroutine is about to close it.
  pub no_use_after_close :
      (i : ℕ) (p : Pc) (e : ℕ)
      → get_elem? s.threads i ≡ some p
      → 0 < in_flight e p
      → (count e s.closed_clients ≡ 0) × (total (closes e) s.threads ≡ 0)
  no_use_after_close i p e at_i busy =
      let v = Reach-Inv r in
      ground (arith, v.counts e, v.quiet e, le-total (in_flight e) s.threads i p at_i)

  -- Where `MaxConcurrency` of a source is positive, at most that many goroutines at a time hold a
  -- slot of its throttle, which each needs to be in `fn`.
  pub throttle_bound :
      (e : ℕ) (x : Entry) (n : ℕ)
      → s.heap e ≡ some x
      → x.max_concurrency ≡ pos (suc n)
      → total (has_slot e) s.threads ≤ suc n
  throttle_bound e x n at_e positive = bound x.throttle refl
    where
      v : Inv s.dir s.threads
      v = Reach-Inv r

      bound : (t : Throttle) → x.throttle ≡ t → total (has_slot e) s.threads ≤ suc n
      bound unlimited k = ground (arith, at_e, v.limits e)
      bound (sem cap len) k = ground (arith, at_e, v.limits e, v.fits e)

  -- Once a `RemoveAll` has returned, the directory is closed, its map is empty, no `register` is
  -- under way, and each client ever opened is closed, but for one that another call of `Remove` or
  -- `RemoveAll` still holds to close.
  pub remove_all_complete :
      (i : ℕ)
      → get_elem? s.threads i ≡ some (ready closed_all)
      → (s.closed ≡ true)
        × (s.entries ≡ [])
        × (total in_opening s.threads ≡ 0)
        × ((c : ℕ) → c < s.next_client → count c s.closed_clients + total (holds c) s.threads ≡ 1)
  remove_all_complete i at_i =
      let v = Reach-Inv r in
      let done = le-total has_shut s.threads i (ready closed_all) at_i in
      let empty : s.entries ≡ [] = ground (arith, v.shut, done) in
      (
        ground (arith, v.shut, done),
        empty,
        ground (arith, v.shut, done, v.locked),
        λ c lt. ground (arith, v.owner c, empty),
      )

  -- With an observer, the lifecycle callbacks made so far report the changes of the map in the order
  -- in which they took place, none skipped: they are a prefix of all changes, and are all of them
  -- when neither `mu` nor `observerMu` is held.
  pub callbacks_in_order :
      s.dir.observer ≡ true
      → (later : List Lifecycle) × (s.history ≡ s.delivered ++ later)
        × (s.mu ≡ false → s.observer_mu ≡ false → later ≡ [])
  callbacks_in_order on =
      let v = Reach-Inv r in
      (
        all_reserved s.threads ++ all_unreserved s.threads,
        ground (arith, v.ordered),
        λ free free'.
            ground (arith, v.locked, nothing_reserved s.threads, nothing_unreserved s.threads),
      )

  -- No name stands twice in the map, and a name stands there exactly if it was registered once more
  -- than it was removed.
  pub names_tally :
      (k : String)
      → (total (adds k) s.history ≡ total (drops k) s.history + occurs k s.entries)
        × (occurs k s.entries ≤ 1)
  names_tally = (Reach-Inv r).tallied

  -- With an observer, at any time the grants reported for a source exceed the completions reported by
  -- the number of goroutines that are between the two callbacks of a run of the source.
  pub callbacks_pair :
      (k : String)
      → s.dir.observer ≡ true
      → total (grants k) s.run_events
        ≡ total (completions k) s.run_events + total (observed k) s.threads
  callbacks_pair k on = ground (arith, (Reach-Inv r).gauged k)
