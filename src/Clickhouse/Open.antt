-- ===== src/Clickhouse/Open.antt =====
-- `NewClickHouseMetricsStore` (clickhouse_client.go). `clickhouse.Open` is a parameter: when it returns
-- nil, the connection is there.
use take_home_assignments.Prelude.{
  ◌≡◌, ◌⊎◌, inl, inr, Option, none, some, List, [], ◌∷◌, arith, Option-cases,
}
use take_home_assignments.Prelude.Int.{ℤ, pos}
use take_home_assignments.Text.{Str, bytes}
use take_home_assignments.Store.{Error, wrap}
use take_home_assignments.Clickhouse.{Conn, connect}

-- `clickhouse.Options`, as far as the program fills it in; a duration is in nanoseconds.
pub record Options : Type 0 where
  pub addr : List Str
  pub database : Str
  pub username : Str
  pub password : Str
  pub settings : List (Str × ℤ)
  pub dial_timeout : ℤ

unfoldable pub options_for : Str → Str → Str → Str → Options
options_for addr database username password = record {
  addr = addr ∷ [];
  database = database;
  username = username;
  password = password;
  settings = (bytes "max_execution_time", pos 60) ∷ [];
  dial_timeout = pos 5_000_000_000;
}

module _ {W : Type 0} (conn : Conn W) (open_connection : Options → W → W × Option Error) where
  unfoldable pub new_click_house_metrics_store : Str → Str → Str → Str → W → W × Option Error
  new_click_house_metrics_store addr database username password w =
      let (w, e) = open_connection (options_for addr database username password) w in
      elim e [
        | some e ↦ (w, some (wrap (bytes "opening clickhouse connection") e))
        | none ↦ connect conn w
      ]

  -- `NewClickHouseMetricsStore` returns an error of `Open` with nothing done after it, or an error of
  -- the ping with the connection closed, or nil with the connection open and its ping answered.
  new_click_house_metrics_store_cases :
      (addr database username password : Str) (w : W)
      → let opened = open_connection (options_for addr database username password) w in
        let pinged = conn.ping opened.0 in
        let made = new_click_house_metrics_store addr database username password w in
        ((e : Error) × (opened.1 ≡ some e)
          × (made ≡ (opened.0, some (wrap (bytes "opening clickhouse connection") e))))
        ⊎ ((e : Error) × (opened.1 ≡ none)
            × (pinged.1 ≡ some e)
            × (made ≡ ((conn.close pinged.0).0, some (wrap (bytes "pinging clickhouse") e))))
        ⊎ ((opened.1 ≡ none) × (pinged.1 ≡ none) × (made ≡ (pinged.0, none)))
  unfolding new_click_house_metrics_store connect
  new_click_house_metrics_store_cases addr database username password w =
      let opened = open_connection (options_for addr database username password) w in
      let pinged = conn.ping opened.0 in
      elim (Option-cases opened.1) [
        | inr (e, bad) ↦ inl (e, bad, ground (arith, bad))
        | inl good ↦ elim (Option-cases pinged.1) [
          | inr (e, bad) ↦ inr (inl (e, good, bad, ground (arith, good, bad)))
          | inl answered ↦ inr (inr (good, answered, ground (arith, good, answered)))
        ]
      ]
