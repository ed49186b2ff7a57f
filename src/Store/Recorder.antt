-- ===== src/Store/Recorder.antt =====
-- A store that also keeps a record of what it was given: the calls of the two inserts in their
-- order, each with its rows and its error. It observes a client of the interface without changing
-- what the client sees.
use take_home_assignments.Prelude.{
  ℕ, suc, ◌+◌, arith, ◌≡◌, refl, ap, Option, none, some, List, [], ◌∷◌, ◌++◌, sym, ◌∙◌,
}
use take_home_assignments.Series.{SeriesMetadata, DataPoint}
use take_home_assignments.Store.{Error, MetricsStore}
use mathlib.Core.List.{append_assoc, append-nil}

pub data Call : Type 0 where
  points : List DataPoint → Option Error → Call
  metadata : List SeriesMetadata → Option Error → Call

pub record Recorded (S : Type 0) : Type 0 where
  pub inner : S
  pub calls : List Call

module _ {S : Type 0} where
  abbrev pub recorder : MetricsStore S → MetricsStore (Recorded S)
  recorder st = record {
    create_tables = λ r. let (s, e) = st.create_tables r.inner in (record r { inner = s }, e);
    insert_metadata = λ rows r.
        let (s, e) = st.insert_metadata rows r.inner in
        (record { inner = s; calls = r.calls ++ (metadata rows e ∷ []) }, e);
    insert_points = λ rows r.
        let (s, e) = st.insert_points rows r.inner in
        (record { inner = s; calls = r.calls ++ (points rows e ∷ []) }, e);
    close = λ r. let (s, e) = st.close r.inner in (record r { inner = s }, e);
  }

-- The points and the metadata rows of all calls, failed ones included.
unfoldable pub attempted_points : List Call → List DataPoint
attempted_points [] = []
attempted_points (points rows e ∷ cs) = rows ++ attempted_points cs
attempted_points (metadata rows e ∷ cs) = attempted_points cs

unfoldable pub attempted_metadata : List Call → List SeriesMetadata
attempted_metadata [] = []
attempted_metadata (points rows e ∷ cs) = attempted_metadata cs
attempted_metadata (metadata rows e ∷ cs) = rows ++ attempted_metadata cs

-- The points of the calls that returned no error.
unfoldable pub stored_points : List Call → List DataPoint
stored_points [] = []
stored_points (points rows none ∷ cs) = rows ++ stored_points cs
stored_points (points rows (some e) ∷ cs) = stored_points cs
stored_points (metadata rows e ∷ cs) = stored_points cs

pub attempted_points-append :
    (cs ds : List Call) → attempted_points (cs ++ ds) ≡ attempted_points cs ++ attempted_points ds
unfolding attempted_points
attempted_points-append [] ds = refl
attempted_points-append (points rows e ∷ cs) ds =
    ap (◌++◌ rows) (attempted_points-append cs ds) ∙ sym (append_assoc rows _ _)
attempted_points-append (metadata rows e ∷ cs) ds = attempted_points-append cs ds

pub attempted_metadata-append :
    (cs ds : List Call)
    → attempted_metadata (cs ++ ds) ≡ attempted_metadata cs ++ attempted_metadata ds
unfolding attempted_metadata
attempted_metadata-append [] ds = refl
attempted_metadata-append (points rows e ∷ cs) ds = attempted_metadata-append cs ds
attempted_metadata-append (metadata rows e ∷ cs) ds =
    ap (◌++◌ rows) (attempted_metadata-append cs ds) ∙ sym (append_assoc rows _ _)

pub stored_points-append :
    (cs ds : List Call) → stored_points (cs ++ ds) ≡ stored_points cs ++ stored_points ds
unfolding stored_points
stored_points-append [] ds = refl
stored_points-append (points rows none ∷ cs) ds =
    ap (◌++◌ rows) (stored_points-append cs ds) ∙ sym (append_assoc rows _ _)
stored_points-append (points rows (some e) ∷ cs) ds = stored_points-append cs ds
stored_points-append (metadata rows e ∷ cs) ds = stored_points-append cs ds

unfoldable pub stored_metadata : List Call → List SeriesMetadata
stored_metadata [] = []
stored_metadata (points rows e ∷ cs) = stored_metadata cs
stored_metadata (metadata rows none ∷ cs) = rows ++ stored_metadata cs
stored_metadata (metadata rows (some e) ∷ cs) = stored_metadata cs

-- How many calls returned an error.
unfoldable pub failures : List Call → ℕ
failures [] = 0
failures (points rows none ∷ cs) = failures cs
failures (points rows (some e) ∷ cs) = suc (failures cs)
failures (metadata rows none ∷ cs) = failures cs
failures (metadata rows (some e) ∷ cs) = suc (failures cs)

pub stored_metadata-append :
    (cs ds : List Call) → stored_metadata (cs ++ ds) ≡ stored_metadata cs ++ stored_metadata ds
unfolding stored_metadata
stored_metadata-append [] ds = refl
stored_metadata-append (points rows e ∷ cs) ds = stored_metadata-append cs ds
stored_metadata-append (metadata rows none ∷ cs) ds =
    ap (◌++◌ rows) (stored_metadata-append cs ds) ∙ sym (append_assoc rows _ _)
stored_metadata-append (metadata rows (some e) ∷ cs) ds = stored_metadata-append cs ds

pub failures-append : (cs ds : List Call) → failures (cs ++ ds) ≡ failures cs + failures ds
unfolding failures
failures-append [] ds = omega arith
failures-append (points rows none ∷ cs) ds = failures-append cs ds
failures-append (points rows (some e) ∷ cs) ds = omega (arith, failures-append cs ds)
failures-append (metadata rows none ∷ cs) ds = failures-append cs ds
failures-append (metadata rows (some e) ∷ cs) ds = omega (arith, failures-append cs ds)

-- What a joined sequence of calls adds up to.
pub ruleset call_laws = (
  attempted_points-append, attempted_metadata-append, stored_points-append, stored_metadata-append,
  append-nil,
)
