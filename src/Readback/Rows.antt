-- ===== src/Readback/Rows.antt =====
-- The rows of values of the two tables stand for the rows of the program.
use take_home_assignments.Prelude.{◌≡◌, refl, List, [], ◌∷◌, map}
use take_home_assignments.Series.{SeriesMetadata, DataPoint}
use take_home_assignments.Clickhouse.{metadata_row, point_row}
use mathlib.Core.Path.{ap₂}

map_inj {ℓ κ} :
    {A : Type ℓ} {B : Type κ} (f : A → B)
    → ((a b : A) → f a ≡ f b → a ≡ b)
    → (xs ys : List A) → map f xs ≡ map f ys
    → xs ≡ ys
map_inj f inj [] [] e = refl
map_inj f inj [] (y ∷ ys) e = cc
map_inj f inj (x ∷ xs) [] e = cc
map_inj f inj (x ∷ xs) (y ∷ ys) e =
    let head : f x ≡ f y = cc in
    let tail : map f xs ≡ map f ys = cc in ap₂ ◌∷◌ (inj x y head) (map_inj f inj xs ys tail)

point_row_inj : (p q : DataPoint) → point_row p ≡ point_row q → p ≡ q
unfolding point_row
point_row_inj p q e = cc

metadata_row_inj : (m n : SeriesMetadata) → metadata_row m ≡ metadata_row n → m ≡ n
unfolding metadata_row
metadata_row_inj m n e = cc

pub point_rows_inj : (ps qs : List DataPoint) → map point_row ps ≡ map point_row qs → ps ≡ qs
point_rows_inj = map_inj point_row point_row_inj

pub metadata_rows_inj :
    (ms ns : List SeriesMetadata) → map metadata_row ms ≡ map metadata_row ns → ms ≡ ns
metadata_rows_inj = map_inj metadata_row metadata_row_inj
