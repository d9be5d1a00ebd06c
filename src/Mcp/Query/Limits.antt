-- ===== src/Mcp/Query/Limits.antt =====
-- A query that succeeds stays within its limits, and returns the first rows of the result.
use Prim.Native.String.{len}
use dbstore.Mcp.ReadOnly.Accepted.{IsReadOnly, validate-IsReadOnly}
use dbstore.Common.{
  ℕ, zero, suc, ◌+◌, ◌*◌, ◌^◌, ◌≤◌, ◌<◌, ltb, ◌≡◌, refl, ℤ, pos, negsuc, Bool, List, [], ◌∷◌, ◌++◌,
  length, take, arith, append_assoc, append-nil, length-append, inl, inr,
}
use dbstore.Mcp.Errors.{Result, ok, err, ◌>>=◌, Result-cases, check}
use dbstore.Mcp.Server.{Server}
use dbstore.Mcp.ReadOnly.{validate_read_only_query}
use dbstore.Mcp.Query.{
  QueryInput, Plan, plan, timeout_of, Row, normalize, Cursor, Encoder, QueryOutput, collect, answer,
  Database, run_query,
}

-- The rows that are scanned before the first error.
abbrev pub leading : List (Result Row) → List Row
leading [] = []
leading (err e ∷ rest) = []
leading (ok row ∷ rest) = row ∷ leading rest

abbrev pub all_normalized : List Row → List Row
all_normalized [] = []
all_normalized (row ∷ rest) = normalize row ∷ all_normalized rest

take-nil {ℓ} : {A : Type ℓ} (n : ℕ) → take {A = A} n [] ≡ []
take-nil zero = refl
take-nil (suc n) = refl

timeout_of_lem : (x : ℤ) {t : ℕ} → timeout_of x ≡ ok t → (0 < t) × (t ≤ 30 * 10 ^ 9)
unfolding timeout_of
timeout_of_lem (pos zero) h = ground arith
timeout_of_lem (pos (suc n)) h = ground arith
timeout_of_lem (negsuc n) h = ground arith

module _ (json : Encoder) (p : Plan) (cursor : Cursor) where
  collect_lem :
      (rows : List Row) (size k : ℕ) (scans : List (Result Row)) {out : List Row} {cut : Bool}
      → length rows + k ≡ p.max_rows
      → collect json p cursor rows size scans ≡ ok (out, cut)
      → (out ≡ rows ++ take k (all_normalized (leading scans)))
        × (cut ≡ ltb k (length (leading scans)))
  unfolding collect
  collect_lem rows size k [] room h = ground (arith, take-nil {A = Row} k, append-nil rows)
  collect_lem rows size k (err e ∷ rest) room h = ground arith
  collect_lem rows size zero (ok row ∷ rest) room h = ground (arith, append-nil rows)
  collect_lem rows size (suc k) (ok row ∷ rest) {out} {cut} room h =
      let more = rows ++ normalize row ∷ [] in
      let later = λ (size' : ℕ).
        collect_lem more size' k rest {out = out} {cut = cut}
          (omega (arith, room, length-append rows (normalize row ∷ []))) in
      elim (Result-cases (json.row_len (normalize row))) [
        | inl (n, e) ↦ ground (
          arith,
          room,
          later (size + n + 1),
          append_assoc rows (normalize row ∷ []) (take k (all_normalized (leading rest))),
        )
        | inr (e, f) ↦ ground arith
      ]

  -- What a successful query has of its cursor.
  answer_lem :
      (out : QueryOutput)
      → answer json p cursor ≡ ok out
      → (out.rows ≡ take p.max_rows (all_normalized (leading cursor.scans)))
        × (out.truncated ≡ ltb p.max_rows (length (leading cursor.scans)))
        × (out.row_count ≡ length out.rows)
        × ((n : ℕ) × (json.output_len out.columns out.rows out.truncated ≡ ok n)
            × (n ≤ p.max_bytes))
  unfolding answer
  answer_lem out h = elim (Result-cases cursor.columns) [
    | inr (e, c) ↦ ground arith
    | inl (columns, c) ↦ elim (Result-cases (json.columns_len columns)) [
      | inr (e, n) ↦ ground arith
      | inl (n, w) ↦
          elim (Result-cases (collect json p cursor [] (len p.source + n + 128) cursor.scans)) [
            | inr (e, r) ↦ ground arith
            | inl ((rows, cut), r) ↦ elim (Result-cases (json.output_len columns rows cut)) [
              | inr (e, m) ↦ ground arith
              | inl (m, u) ↦
                  let (rows_are, cut_is) =
                    collect_lem [] (len p.source + n + 128) p.max_rows cursor.scans (omega arith)
                      r in
                  (
                    ground (arith, c, w, r, u, h, rows_are),
                    ground (arith, c, w, r, u, h, cut_is),
                    ground (arith, c, w, r, u, h),
                    (m, ground (arith, c, w, r, u, h), ground (arith, c, w, r, u, h)),
                  )
            ]
          ]
    ]
  ]

-- A request that is accepted has its limits within the server's, at most 30 seconds, and a read-only query.
pub plan-within :
    (s : Server) (input : QueryInput) (p : Plan)
    → plan s input ≡ ok p
    → IsReadOnly p.query
      × (p.source ≡ input.source)
      × (p.max_rows ≤ s.maximum_max_rows)
      × (p.max_bytes ≤ s.maximum_max_bytes)
      × (0 < p.timeout)
      × (p.timeout ≤ 30 * 10 ^ 9)
unfolding plan
plan-within s input p h = elim (Result-cases (validate_read_only_query input.query)) [
  | inr (e, v) ↦ ground arith
  | inl (q, v) ↦ elim (Result-cases (timeout_of input.timeout_ms)) [
    | inr (e, t) ↦ ground arith
    | inl (t, w) ↦
        ground (arith, h, validate-IsReadOnly input.query q v, timeout_of_lem input.timeout_ms w)
  ]
]

pub Result-bind :
    {A B : Type 0} (r : Result A) (f : A → Result B) {b : B}
    → (r >>= f) ≡ ok b
    → (a : A) × (r ≡ ok a) × (f a ≡ ok b)
Result-bind (ok a) f h = (a, refl, h)
Result-bind (err e) f h = ground arith

le-length-take : {A : Type 0} (n : ℕ) (xs : List A) → length (take n xs) ≤ n
le-length-take zero xs = omega arith
le-length-take (suc n) [] = omega arith
le-length-take (suc n) (x ∷ xs) = omega (arith, le-length-take n xs)

-- What an answer has of the plan and of the result of the query on a database.
pub record Answers (json : Encoder) (p : Plan) (db : Database) (out : QueryOutput) : Type 0 where
  pub cursor : Cursor
  pub sent : db.query p.query p.args ≡ ok cursor
  pub first_rows : out.rows ≡ take p.max_rows (all_normalized (leading cursor.scans))
  pub cut : out.truncated ≡ ltb p.max_rows (length (leading cursor.scans))
  pub counted : out.row_count ≡ length out.rows
  pub few : out.row_count ≤ p.max_rows
  pub size : ℕ
  pub encoded : json.output_len out.columns out.rows out.truncated ≡ ok size
  pub small : size ≤ p.max_bytes

-- An answer of the callback is the first rows of the query's result, no more and no larger than planned.
pub run_query-Answers :
    (json : Encoder) (p : Plan) (db : Database) (out : QueryOutput)
    → run_query json p db ≡ ok out
    → Answers json p db out
unfolding run_query
run_query-Answers json p db out h =
    let (_, _, h1) =
      Result-bind (check db.begin_tx) (λ _. db.query p.query p.args >>= answer json p) h in
    let (cursor, sent, h2) = Result-bind (db.query p.query p.args) (answer json p) h1 in
    let (rows, cut, counted, (size, encoded, small)) = answer_lem json p cursor out h2 in
    record {
      cursor = cursor;
      sent = sent;
      first_rows = rows;
      cut = cut;
      counted = counted;
      few =
          grind (
            arith,
            rows,
            counted,
            le-length-take p.max_rows (all_normalized (leading cursor.scans)),
          );
      size = size;
      encoded = encoded;
      small = small;
    }
