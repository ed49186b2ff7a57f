-- ===== src/Clickhouse.antt =====
-- clickhouse_client.go: the store `ClickHouseMetricsStore`, over the driver of clickhouse-go, which
-- is a parameter.
pub mod Open
pub mod Inserts
pub mod Reads
pub mod QueryRange
pub mod Delivery
use take_home_assignments.Prelude.{
  ℕ, zero, suc, Bool, true, false, Option, none, some, List, [], ◌∷◌, ◌++◌, map, if◌then◌else◌, ◌≡◌,
  refl, ◌⊎◌, inl, inr,
}
use take_home_assignments.Prelude.Int.{ℤ}
use take_home_assignments.Text.{Str, bytes}
use take_home_assignments.Dict.{Dict}
use take_home_assignments.Series.{SeriesMetadata, DataPoint, Time}
use take_home_assignments.Store.{Error, wrap, MetricsStore}
use take_home_assignments.Ingester.{is_empty}

-- The SQL texts of the client and of clickhouse_schema.go, each by its name or its use.
pub data Statement : Type 0 where
  create_meta_table_sql create_point_table_sql create_metrics_view_sql : Statement
  insert_into_metrics_meta insert_into_metrics_point : Statement
  select_fingerprints select_points : Statement

-- The values that are bound to a column or to a placeholder.
pub data Value : Type 0 where
  uint64 uint32 float64 : ℕ → Value
  int32 : ℤ → Value
  string : Str → Value
  string_map : Dict → Value
  boolean : Bool → Value
  instant : Time → Value
  uint64_list : List ℕ → Value

-- A value and a nil error, or an error.
pub data Result (A : Type 0) : Type 0 where
  ok : A → Result A
  failed : Error → Result A

pub result_cases :
    {A : Type 0} (r : Result A) → ((a : A) × (r ≡ ok a)) ⊎ ((e : Error) × (r ≡ failed e))
result_cases (ok a) = inl (a, refl)
result_cases (failed e) = inr (e, refl)

-- `driver.Conn` with its batches and its row cursors, on a state `W` of driver and server.
pub record Conn (W : Type 0) : Type 1 where
  pub Batch : Type 0
  pub Rows : Type 0
  pub ping : W → W × Option Error
  pub exec : Statement → W → W × Option Error
  pub prepare_batch : Statement → W → W × Result Batch
  pub append : Batch → List Value → W → W × Option Error
  pub send : Batch → W → W × Option Error
  pub query : Statement → List Value → W → W × Result Rows
  pub next : Rows → W → W × Bool
  pub scan_fingerprint : Rows → W → W × Result ℕ
  pub scan_point : Rows → W → W × Result DataPoint
  pub err : Rows → W → Option Error
  pub close_rows : Rows → W → W × Option Error
  pub close : W → W × Option Error

-- The arguments of `batch.Append`.
unfoldable pub metadata_row : SeriesMetadata → List Value
metadata_row r =
    uint64 r.fingerprint
    ∷ string r.metric_type
    ∷ string_map r.resource_attributes
    ∷ string r.resource_schema_url
    ∷ string r.scope_name
    ∷ string r.scope_version
    ∷ string_map r.scope_attributes
    ∷ uint32 r.scope_dropped_attr_count
    ∷ string r.scope_schema_url
    ∷ string r.service_name
    ∷ string r.metric_name
    ∷ string r.metric_description
    ∷ string r.metric_unit
    ∷ string_map r.attributes
    ∷ int32 r.aggregation_temporality
    ∷ boolean r.is_monotonic
    ∷ []

unfoldable pub point_row : DataPoint → List Value
point_row r =
    uint64 r.fingerprint
    ∷ instant r.start_time_unix
    ∷ instant r.time_unix
    ∷ float64 r.value
    ∷ uint32 r.flags
    ∷ []

module _ {W : Type 0} (conn : Conn W) where
  open conn use {
    Batch, Rows, ping, exec, prepare_batch, append, send, query, next, scan_fingerprint, scan_point,
    err, close_rows, close,
  }

  -- `NewClickHouseMetricsStore`, at a connection that `clickhouse.Open` has returned
  unfoldable pub connect : W → W × Option Error
  connect w =
      let (w, e) = ping w in
      elim e [
        | some e ↦ ((close w).0, some (wrap (bytes "pinging clickhouse") e))
        | none ↦ (w, none)
      ]

  -- the loop of `CreateTables`
  unfoldable pub exec_all : List Statement → W → W × Option Error
  exec_all [] w = (w, none)
  exec_all (ddl ∷ ddls) w =
      let (w', e) = exec ddl w in
      let rest = exec_all ddls w' in
      elim e [ some e ↦ (w', some (wrap (bytes "creating schema object") e)) | none ↦ rest ]

  unfoldable pub create_tables : W → W × Option Error
  create_tables =
      exec_all (create_meta_table_sql ∷ create_point_table_sql ∷ create_metrics_view_sql ∷ [])

  -- the loop of the two inserts, with the text of its error
  unfoldable pub append_rows : Str → Batch → List (List Value) → W → W × Option Error
  append_rows text batch [] w = (w, none)
  append_rows text batch (row ∷ rows) w =
      let (w', e) = append batch row w in
      let rest = append_rows text batch rows w' in
      elim e [ some e ↦ (w', some (wrap text e)) | none ↦ rest ]

  -- the two inserts, which differ in their texts and their columns
  unfoldable pub insert_rows : Statement → Str → Str → List (List Value) → W → W × Option Error
  insert_rows into preparing appending rows w =
      let (w, prepared) = prepare_batch into w in
      elim prepared [
        | failed e ↦ (w, some (wrap preparing e))
        | ok batch ↦
            let (w, e) = append_rows appending batch rows w in
            elim e [ some e ↦ (w, some e) | none ↦ send batch w ]
      ]

  unfoldable pub insert_metadata : List SeriesMetadata → W → W × Option Error
  insert_metadata rows =
      insert_rows insert_into_metrics_meta (bytes "preparing metadata batch")
        (bytes "appending metadata row") (map metadata_row rows)

  unfoldable pub insert_points : List DataPoint → W → W × Option Error
  insert_points rows =
      insert_rows insert_into_metrics_point (bytes "preparing points batch")
        (bytes "appending point row") (map point_row rows)

  -- A loop `for rows.Next() { … rows.Scan(…) … }`: the values scanned, or the error of a scan. It
  -- takes fuel, and `none` says that the fuel ran out.
  unfoldable pub collect :
      {A : Type 0}
      → (Rows → W → W × Result A)
      → ℕ
      → Rows
      → List A
      → W
      → Option (W × Result (List A))
  collect scan zero rows acc w = none
  collect {A} scan (suc fuel) rows acc w =
      let (w, more) = next rows w in
      let (w', got) = scan rows w in
      let rest = λ (a : A). collect scan fuel rows (acc ++ (a ∷ [])) w' in
      if more then elim got [ failed e ↦ some (w', failed e) | ok a ↦ rest a ] else some (w, ok acc)

  -- `QueryRange` from its second query on
  unfoldable pub query_points :
      ℕ → List ℕ → Time → Time → W → Option (W × List DataPoint × Option Error)
  query_points fuel fingerprints start stop w =
      let (w, q) =
        query select_points (uint64_list fingerprints ∷ instant start ∷ instant stop ∷ []) w in
      elim q [
        | failed e ↦ some (w, [], some (wrap (bytes "querying points") e))
        | ok rows ↦ elim (collect scan_point fuel rows [] w) [
          | none ↦ none
          | some (w, failed e) ↦
              some ((close_rows rows w).0, [], some (wrap (bytes "scanning point") e))
          | some (w, ok points) ↦ some ((close_rows rows w).0, points, err rows w)
        ]
      ]

  -- `QueryRange` after the loop over the fingerprints
  unfoldable pub after_fingerprints :
      ℕ → Rows → Time → Time → W → Result (List ℕ) → Option (W × List DataPoint × Option Error)
  after_fingerprints fuel rows start stop w (failed e) =
      some ((close_rows rows w).0, [], some (wrap (bytes "scanning fingerprint") e))
  after_fingerprints fuel rows start stop w (ok fingerprints) =
      let w = (close_rows rows w).0 in
      elim (err rows w) [
        | some e ↦ some (w, [], some (wrap (bytes "iterating fingerprints") e))
        | none ↦
            if is_empty fingerprints
            then some (w, [], none)
            else query_points fuel fingerprints start stop w
      ]

  unfoldable pub query_range :
      ℕ → Str → Str → Time → Time → W → Option (W × List DataPoint × Option Error)
  query_range fuel service_name metric_name start stop w =
      let (w, q) = query select_fingerprints (string service_name ∷ string metric_name ∷ []) w in
      elim q [
        | failed e ↦ some (w, [], some (wrap (bytes "resolving fingerprints") e))
        | ok rows ↦ elim (collect scan_fingerprint fuel rows [] w) [
          | none ↦ none
          | some (w, fingerprints) ↦ after_fingerprints fuel rows start stop w fingerprints
        ]
      ]

  -- `ClickHouseMetricsStore` as a `MetricsStore`
  abbrev pub clickhouse_store : MetricsStore W
  clickhouse_store = record {
    create_tables = create_tables;
    insert_metadata = insert_metadata;
    insert_points = insert_points;
    close = close;
  }
