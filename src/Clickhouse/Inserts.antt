-- ===== src/Clickhouse/Inserts.antt =====
-- What the two inserts do to the tables.
use take_home_assignments.Prelude.{
  ◌≡◌, refl, sym, ap, ◌∙◌, ◌⊎◌, inl, inr, none, some, List, [], ◌∷◌, ◌++◌, map, arith, Option-cases,
}
use take_home_assignments.Series.{SeriesMetadata, DataPoint}
use take_home_assignments.Text.{Str}
use take_home_assignments.Store.{Error, wrap}
use take_home_assignments.Clickhouse.{
  Statement, insert_into_metrics_meta, insert_into_metrics_point, Value, ok, Conn, result_cases,
  metadata_row, point_row, append_rows, insert_rows, insert_metadata, insert_points,
}
use mathlib.Core.Path.{subst, ap₂}
use mathlib.Core.List.{append-nil, append_assoc}

-- What the client relies on: a batch keeps the rows that were appended to it, and only `Send`
-- writes, all of them when it returns nil, and to its own table. The rows of a table are those of
-- the statement that inserts into it.
pub record IsBatching {W : Type 0} (conn : Conn W) : Type 1 where
  pub table : Statement → W → List (List Value)
  pub target : conn.Batch → Statement
  pub buffer : conn.Batch → W → List (List Value)
  pub prepare_tables :
      (into s : Statement) (w : W) → table s (conn.prepare_batch into w).0 ≡ table s w
  pub prepare_target :
      (into : Statement) (w : W) (b : conn.Batch)
      → (conn.prepare_batch into w).1 ≡ ok b
      → target b ≡ into
  pub prepare_buffer :
      (into : Statement) (w : W) (b : conn.Batch)
      → (conn.prepare_batch into w).1 ≡ ok b
      → buffer b (conn.prepare_batch into w).0 ≡ []
  pub append_tables :
      (b : conn.Batch) (row : List Value) (s : Statement) (w : W)
      → table s (conn.append b row w).0 ≡ table s w
  pub append_buffer :
      (b : conn.Batch) (row : List Value) (w : W)
      → (conn.append b row w).1 ≡ none
      → buffer b (conn.append b row w).0 ≡ buffer b w ++ (row ∷ [])
  pub send_table :
      (b : conn.Batch) (w : W)
      → (conn.send b w).1 ≡ none
      → table (target b) (conn.send b w).0 ≡ table (target b) w ++ buffer b w
  pub send_aside :
      (b : conn.Batch) (s : Statement) (w : W)
      → ¬ (target b ≡ s)
      → table s (conn.send b w).0 ≡ table s w

module _ {W : Type 0} (conn : Conn W) (h : IsBatching conn) where
  append_rows-tables :
      (text : Str) (b : conn.Batch) (rows : List (List Value)) (s : Statement) (w : W)
      → h.table s (append_rows conn text b rows w).0 ≡ h.table s w
  unfolding append_rows
  append_rows-tables text b [] s w = refl
  append_rows-tables text b (row ∷ rows) s w =
      let w' = (conn.append b row w).0 in
      elim (Option-cases (conn.append b row w).1) [
        | inl e ↦
            rw (e, append_rows) (append_rows-tables text b rows s w' ∙ h.append_tables b row s w)
        | inr (x, e) ↦ rw (e, append_rows) (h.append_tables b row s w)
      ]

  append_rows-buffer :
      (text : Str) (b : conn.Batch) (rows : List (List Value)) (w : W)
      → (append_rows conn text b rows w).1 ≡ none
      → h.buffer b (append_rows conn text b rows w).0 ≡ h.buffer b w ++ rows
  unfolding append_rows
  append_rows-buffer text b [] w e = sym (append-nil (h.buffer b w))
  append_rows-buffer text b (row ∷ rows) w e =
      let w' = (conn.append b row w).0 in
      elim (Option-cases (conn.append b row w).1) [
        | inl appended ↦
            rw (appended, append_rows)
              (append_rows-buffer text b rows w' (rw (appended, append_rows) at e)
                ∙ ap (λ bs. bs ++ rows) (h.append_buffer b row w appended)
                ∙ append_assoc (h.buffer b w) (row ∷ []) rows)
        | inr (x, refused) ↦ absurd (ground arith)
      ]

  -- With a driver that batches as documented, an insert either returns an error with every table
  -- as it was, or ends with the `Send` of a batch that holds exactly its rows, no table having
  -- changed before.
  pub insert_rows_cases :
      (into : Statement) (preparing appending : Str) (rows : List (List Value)) (w : W)
      → ((e : Error) × ((insert_rows conn into preparing appending rows w).1 ≡ some e)
          × ((s : Statement)
              → h.table s (insert_rows conn into preparing appending rows w).0 ≡ h.table s w))
        ⊎ ((b : conn.Batch) × (w' : W) × (insert_rows conn into preparing appending rows w
              ≡ conn.send b w')
            × (h.target b ≡ into)
            × (h.buffer b w' ≡ rows)
            × ((s : Statement) → h.table s w' ≡ h.table s w))
  unfolding insert_rows
  insert_rows_cases into preparing appending rows w =
      let w₁ = (conn.prepare_batch into w).0 in
      elim (result_cases (conn.prepare_batch into w).1) [
        | inr (e, refused) ↦
            inl (rw (refused, insert_rows) (wrap preparing e, refl, λ s. h.prepare_tables into s w))
        | inl (b, prepared) ↦
            let kept = λ (s : Statement).
              append_rows-tables appending b rows s w₁ ∙ h.prepare_tables into s w in
            elim (Option-cases (append_rows conn appending b rows w₁).1) [
              | inr (e, refused) ↦ inl (rw (prepared, insert_rows, refused) (e, refl, kept))
              | inl appended ↦ inr (
                b,
                (append_rows conn appending b rows w₁).0,
                rw (prepared, insert_rows, appended) refl,
                h.prepare_target into w b prepared,
                append_rows-buffer appending b rows w₁ appended
                    ∙ ap (λ bs. bs ++ rows) (h.prepare_buffer into w b prepared),
                kept,
              )
            ]
      ]

  insert_rows_written :
      (into : Statement) (preparing appending : Str) (rows : List (List Value)) (w : W)
      → (insert_rows conn into preparing appending rows w).1 ≡ none
      → h.table into (insert_rows conn into preparing appending rows w).0 ≡ h.table into w ++ rows
  insert_rows_written into preparing appending rows w e =
      elim (insert_rows_cases into preparing appending rows w) [
        | inl (x, refused, kept) ↦ absurd (ground (arith, e, refused))
        | inr (b, w', sent, target, buffer, kept) ↦
            let done = h.send_table b w' (sym (ap (λ r. r.1) sent) ∙ e) in
            let moved =
              subst (λ s. h.table s (conn.send b w').0 ≡ h.table s w' ++ h.buffer b w') target
                done in
            ap (λ r. h.table into r.0) sent ∙ moved ∙ ap₂ ◌++◌ (kept into) buffer
      ]

  -- With a driver that batches as documented, an `InsertPoints` that returns nil has added to the
  -- points table the row of each point, in order.
  pub insert_points_written :
      (points : List DataPoint) (w : W)
      → (insert_points conn points w).1 ≡ none
      → h.table insert_into_metrics_point (insert_points conn points w).0
        ≡ h.table insert_into_metrics_point w ++ map point_row points
  unfolding insert_points
  insert_points_written points w e = insert_rows_written _ _ _ (map point_row points) w e

  -- With a driver that batches as documented, an `InsertMetadata` that returns nil has added to
  -- the lookup table the row of each series, in order.
  pub insert_metadata_written :
      (rows : List SeriesMetadata) (w : W)
      → (insert_metadata conn rows w).1 ≡ none
      → h.table insert_into_metrics_meta (insert_metadata conn rows w).0
        ≡ h.table insert_into_metrics_meta w ++ map metadata_row rows
  unfolding insert_metadata
  insert_metadata_written rows w e = insert_rows_written _ _ _ (map metadata_row rows) w e
