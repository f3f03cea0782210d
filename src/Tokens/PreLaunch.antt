-- ===== src/Tokens/PreLaunch.antt =====
-- The cards of tokens before their first trade: the loop of the list in
-- src/modules/tokens/token-query.service.ts that puts the opening price in place of a missing one.
use spawn_backend.Prelude.{
  ℕ, ◌*◌, ◌/◌, ltb, ◌==◌, Bool, true, if◌then◌else◌, List, [], ◌∷◌, Option, none, some,
}
use spawn_backend.Prelude.Int.{ℤ}
use spawn_backend.Prelude.Outcome.{ok, ◌>>=◌}
use spawn_backend.Protocol.Fault.{Partial}
use spawn_backend.Protocol.Orientation.{Q192, sqrt_price_at_level}

-- A row of the metrics; a number that is missing reads as 0.
pub record MetricsRow : Type 0 where
  pub last_price_sqrt : ℕ
  pub opening_level : ℤ
  pub total_supply : ℕ
  pub circulating_supply : Option ℕ
  pub mcap_wei : Option ℕ
  pub fdv_wei : Option ℕ
  pub ath_mcap_wei : Option ℕ
  pub pre_launch : Bool

abbrev pub circulating : MetricsRow → Option ℕ → ℕ
circulating r none = r.total_supply
circulating r (some supply) = supply

unfoldable pub at_opening : MetricsRow → ℕ → MetricsRow
at_opening r opening = if opening == 0 then r else record {
  last_price_sqrt = opening;
  opening_level = r.opening_level;
  total_supply = r.total_supply;
  circulating_supply = r.circulating_supply;
  mcap_wei = some (circulating r r.circulating_supply * Q192 / (opening * opening));
  fdv_wei = some (r.total_supply * Q192 / (opening * opening));
  ath_mcap_wei = none;
  pre_launch = true;
}

unfoldable pub fill_row : MetricsRow → Partial MetricsRow
fill_row r =
    let filled = (sqrt_price_at_level r.opening_level >>= λ opening. ok (at_opening r opening)) in
    if ltb 0 r.last_price_sqrt then ok r else filled

unfoldable pub fill_pre_launch : List MetricsRow → Partial (List MetricsRow)
fill_pre_launch [] = ok []
fill_pre_launch (r ∷ rs) =
    let later = fill_pre_launch rs in do row ← fill_row r; rest ← later; ok (row ∷ rest)
