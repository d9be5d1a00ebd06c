-- ===== src/Adapters/Tests.antt =====
-- The adapters on concrete inputs.
use dbstore.Common.{
  ltb, String, not, ◌<>◌, str_eq, if◌then◌else◌, ℕ, zero, suc, inl, inr, ◌+◌, ◌≡◌, refl, true,
  false, Option, none, some, List, [], ◌∷◌, pos, length, total,
}
use dbstore.Store.Errors.{Error, is_not_found, not_found, external}
use dbstore.Store.Config.{SourceInfo, SourceConfig, default_pool_config}
use dbstore.Store.Listing.{sources, Lists, sources-Lists}
use dbstore.Store.Protocol.{registers, runs, calls, go, opens, at, returns, Outcome}
use dbstore.Store.Runner.{Runner, RunsOnce, Called, call, call-Called}
use dbstore.Store.Goroutine.Gauge.{observed}
use dbstore.Store.Goroutine.System.{Run, Turn, starting, stepping, registering, initial, run}
use dbstore.Adapters.Rest
use dbstore.Adapters.Reply.{Reply, got, Reflects}
use dbstore.Adapters.Rest.{Library, Client, Request, Response, new_request, get, resolve, set}
use dbstore.Adapters.Rest.Answers.{Succeeds, sent, get-Responded}
use dbstore.Adapters.Elasticsearch
use dbstore.Adapters.Elasticsearch.Answers.{IsMissing, IsFound, get-Reflects}
use dbstore.Adapters.Sqlx.Driver.{builder, register_default_drivers, warns}
use dbstore.Store.Driver.{new_driver_registry, register, registered}
use dbstore.Adapters.Prometheus.{new_metrics, after_runs, after_lifecycle}
use dbstore.Adapters.Prometheus.Gauges.{inflight_gauge_counts, active_gauge_counts}
use dbstore.Adapters.Sqlx.{TxDatabase, run_tx}
use dbstore.Adapters.Sqlx.Atomic.{CommitsWhole, IsAtomic, run_tx-IsAtomic}

abbrev cfg : SourceConfig
cfg = record { driver = "mem"; dsn = ""; pool_config = default_pool_config }

-- One goroutine opens "a", and gets into `fn` on it.
abbrev schedule : List Turn
schedule =
    registering "mem" (record { applies_pool_config = false })
    ∷ starting
    ∷ stepping 0 (calls (registers "a" cfg))
    ∷ stepping 0 opens
    ∷ stepping 0 (at 7)
    ∷ stepping 0 go
    ∷ stepping 0 go
    ∷ stepping 0 go
    ∷ stepping 0 go
    ∷ stepping 0 (calls (runs "a"))
    ∷ stepping 0 go
    ∷ stepping 0 go
    ∷ stepping 0 go
    ∷ []

abbrev busy : Run true
busy = run (initial true) schedule

one_runs : total (observed "a") busy.last.threads ≡ 1
unfolding run
one_runs = refl

inflight_gauge_counts_example :
    (after_runs busy.last.run_events new_metrics).inflight "a"
    ≡ pos (total (observed "a") busy.last.threads)
unfolding run
inflight_gauge_counts_example = inflight_gauge_counts busy.reach refl "a"

active_gauge_counts_example :
    (after_lifecycle busy.last.delivered new_metrics).sources_active
    ≡ pos (length busy.last.entries)
unfolding run
active_gauge_counts_example = active_gauge_counts busy.reach refl refl refl

-- A database of one number, whose commits fail for zero.
abbrev committing : ℕ → ℕ → ℕ × Option Error
committing st zero = (st, some (external 1))
committing st (suc n) = (suc n, none)

abbrev database : TxDatabase ℕ
database = record { begin_err = none; commit = committing }

database-CommitsWhole : CommitsWhole database
database-CommitsWhole st zero = inr (external 1, refl)
database-CommitsWhole st (suc n) = inl refl

abbrev adding : ℕ → ℕ × Outcome
adding st = (st + 1, returns none)

run_tx-IsAtomic_example : IsAtomic 4 (adding 4) (run_tx database adding 4)
run_tx-IsAtomic_example = run_tx-IsAtomic database adding 4 database-CommitsWhole

-- A runner of one client.
abbrev runner : Runner ℕ
runner = record { run = λ f st. f 3 st }

runner-RunsOnce : RunsOnce runner
runner-RunsOnce S f st = inr (3, refl)

-- A backend that fills its result and then misses.
abbrev missing : ℕ → ℕ × Option Error
missing c = (c, some not_found)

leaks_nothing : call 0 runner missing ≡ (0, some not_found)
unfolding call is_not_found
leaks_nothing = refl

-- A backend that returns a result with another error.
abbrev partial : ℕ → ℕ × Option Error
partial c = (c, some (external 2))

keeps_partial : call 0 runner partial ≡ (3, some (external 2))
unfolding call is_not_found
keeps_partial = refl

call-Called_example : Called 0 runner partial (call 0 runner partial)
call-Called_example = call-Called 0 runner partial runner-RunsOnce

sources-Lists_example :
    (is : List SourceInfo) × (sources busy.last.dir ≡ some is) × Lists busy.last.dir is
sources-Lists_example = sources-Lists busy.reach

-- The packages of the standard library on the inputs of the test.
abbrev library : Library
library = record {
  parse = λ text. got (record { scheme = ""; host = ""; path = text; raw_path = ""; query = "" });
  resolve_reference = λ base ref. record base { path = base.path <> ref.path };
  canonical = λ key. key;
  refuses = λ method url. none;
  decode = λ text. got text;
  excerpt = λ text. text;
}

abbrev client : Client
client = record {
  base_url = record {
    scheme = "https";
    host = "example.test";
    path = "/api/";
    raw_path = "";
    query = "";
  };
  header = ("X-Test", "yes" ∷ []) ∷ [];
}

-- A server with one user.
abbrev server : Request → Reply Response
server q =
    if str_eq q.url.path "/api/users/1"
    then got (record { status_code = 200; status = "200 OK"; body = "Alice" })
    else got (record { status_code = 404; status = "404 Not Found"; body = "" })

finds_user : (get library server client "/users/1" true).decoded ≡ some "Alice"
unfolding get resolve set
finds_user = refl

misses_user : (get library server client "/users/2" true).error ≡ some Rest.not_found
unfolding get resolve set
misses_user = refl

get-Responded_example :
    Reflects
      (new_request library client "GET" "/users/2" none)
      (λ q. (r : Response) × (server (sent library q) ≡ got r) × (r.status_code ≡ 404))
      ((get library server client "/users/2" true).error ≡ some Rest.not_found)
    × Reflects
        (new_request library client "GET" "/users/2" none)
        (λ q. (r : Response) × (server (sent library q) ≡ got r) × Succeeds library true r)
        ((get library server client "/users/2" true).error ≡ none)
    × ((get library server client "/users/2" true).opened
        ≡ (get library server client "/users/2" true).closed)
get-Responded_example = get-Responded library server client "/users/2" true

-- The default drivers have different names, so that a new adapter can register them all.
registers_defaults :
    (register_default_drivers new_driver_registry)
    ≡ registered (record {
      builders =
          ("clickhouse", builder)
          ∷ ("mariadb", builder)
          ∷ ("mysql", builder)
          ∷ ("postgres", builder)
          ∷ ("sqlite", builder)
          ∷ [];
      frozen = false;
    })
unfolding register_default_drivers register
registers_defaults = refl

keeps_defaults_quiet : warns default_pool_config ≡ false
unfolding warns
keeps_defaults_quiet = refl

-- An index with one document, which reports a missing one in its payload.
abbrev documents : Elasticsearch.Library
documents = record {
  is_error = λ r. ltb 299 r.status_code;
  decode = λ text. got (record { found = not (str_eq text ""); source = text });
  unmarshal = λ text. got text;
}

abbrev fetch : String → String → Reply Elasticsearch.Response
fetch index id =
    got (record {
      status_code = 200;
      status = "200 OK";
      body = if str_eq id "1" then "Alice" else "";
    })

abbrev remove : String → String → Reply Elasticsearch.Response
remove index id = got (record { status_code = 404; status = "404 Not Found"; body = "" })

misses_document :
    (Elasticsearch.get documents fetch "users" "2").error ≡ some Elasticsearch.not_found
unfolding Elasticsearch.get
misses_document = refl

get-Reflects_example :
    Reflects
      (fetch "users" "1")
      (IsMissing documents)
      ((Elasticsearch.get documents fetch "users" "1").error ≡ some Elasticsearch.not_found)
    × Reflects
        (fetch "users" "1")
        (IsFound documents)
        ((Elasticsearch.get documents fetch "users" "1").error ≡ none)
    × Reflects
        (remove "users" "1")
        (λ r. r.status_code ≡ 404)
        ((Elasticsearch.delete documents remove "users" "1").error ≡ some Elasticsearch.not_found)
get-Reflects_example = get-Reflects documents fetch remove "users" "1"
