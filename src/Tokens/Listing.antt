-- ===== src/Tokens/Listing.antt =====
-- The statements of the list of tokens: `list` of src/modules/tokens/token-query.service.ts, up to the
-- rows that they give, except the sort by the next payout, which has a statement of its own.
pub mod Search
use spawn_backend.Prelude.{
  ℕ, ◌*◌, ◌/◌, ◌^◌, ◌==◌, Bool, true, false, if◌then◌else◌, List, [], ◌∷◌, ◌++◌, Option, none, some,
}
use spawn_backend.Common.Decimal.{Text, to_text}
use spawn_backend.Common.Texts.{codes, to_lower_case}
use spawn_backend.Common.Trim.{is_blank}

pub data TokenPhase : Type 0 where
  bonding graduated : TokenPhase

pub data TokenSort : Type 0 where
  newest oldest market_cap volume by_graduation by_milestones next_payout : TokenSort

pub record ListQuery : Type 0 where
  pub chain_id : ℕ
  pub q : Option Text
  pub creator : Option Text
  pub phase : Option TokenPhase
  pub sort : TokenSort
  pub near : Bool
  pub paid : Bool
  pub limit : ℕ
  pub skip : ℕ

abbrev pub graduation_mcap_wei : ℕ
graduation_mcap_wei = 8 * 10 ^ 18

-- `q.replace(/'/g, "''")`
unfoldable pub escape_quotes : Text → Text
escape_quotes [] = []
escape_quotes (c ∷ cs) =
    let rest = escape_quotes cs in if c == b'\'' then b'\'' ∷ b'\'' ∷ rest else c ∷ rest

unfoldable pub search_condition : Text → Text
search_condition q =
    codes "(pm.name ILIKE '%"
    ++ (escape_quotes q ++ (codes "%' OR pm.symbol ILIKE '%" ++ (escape_quotes q ++ codes "%')")))

abbrev pub phase_text : TokenPhase → Text
phase_text TokenPhase.bonding = codes "bonding"
phase_text TokenPhase.graduated = codes "graduated"

-- A condition, if the query asks for it.
unfoldable pub if_asked : (Text → Text) → Option Text → List Text
if_asked condition none = []
if_asked condition (some value) = if is_blank value then [] else condition value ∷ []

unfoldable pub phase_condition : Option TokenPhase → List Text
phase_condition none = []
phase_condition (some phase) = (codes "pm.status = '" ++ (phase_text phase ++ codes "'")) ∷ []

-- `where`
unfoldable pub list_conditions : ListQuery → List Text
list_conditions query =
    ((codes "pm.\"chain_id\" = " ++ to_text query.chain_id) ∷ [])
    ++ (near_conditions query.near
        ++ ((if query.paid then codes "COALESCE(m.paid, 0) > 0" ∷ [] else [])
            ++ (phase_condition query.phase
                ++ (if_asked
                      (λ creator. codes "pm.creator = '" ++ (to_lower_case creator ++ codes "'"))
                      query.creator
                    ++ if_asked search_condition query.q))))
  where
    near_conditions : Bool → List Text
    near_conditions false = []
    near_conditions true =
        codes "pm.status = 'bonding'"
        ∷ (codes "pm.mcap_wei >= " ++ to_text (graduation_mcap_wei * 8 / 10))
        ∷ []

-- `where.join(' AND ')`
unfoldable pub join_and : List Text → Text
join_and [] = []
join_and (condition ∷ []) = condition
join_and (condition ∷ next ∷ rest) = condition ++ (codes " AND " ++ join_and (next ∷ rest))

unfoldable pub list_order : TokenSort → Text
list_order TokenSort.oldest = codes "\"launch_time\" ASC"
list_order TokenSort.by_graduation =
    codes "CASE status WHEN 'graduated' THEN 0 ELSE 1 END ASC, \"launch_time\" DESC"
list_order TokenSort.market_cap = codes "mcap_wei DESC NULLS LAST"
list_order TokenSort.volume =
    codes "(COALESCE(\"buy_volume_eth\",0) + COALESCE(\"sell_volume_eth\",0)) DESC NULLS LAST"
list_order TokenSort.by_milestones =
    codes "COALESCE(m.paid, 0) DESC, m.last_payout_at DESC NULLS LAST, \"launch_time\" DESC"
list_order TokenSort.newest = codes "\"launch_time\" DESC"
list_order TokenSort.next_payout = codes "\"launch_time\" DESC"

-- LATERAL_HARVESTS
abbrev pub lateral_harvests : Text
lateral_harvests =
    codes
      "LEFT JOIN LATERAL (\n  SELECT count(*)::int AS paid, max(\"timestamp\") AS last_payout_at, "
    ++ (codes "sum(net_quote) AS net_eth\n  FROM harvest_payouts hp\n"
        ++ codes
            "  WHERE hp.\"chain_id\" = pm.\"chain_id\" AND hp.\"pool_id\" = pm.\"pool_id\"\n) m ON true")

-- The statement that counts.
unfoldable pub count_statement : ListQuery → Text
count_statement query =
    codes "SELECT count(*)::int AS c FROM pool_metrics pm "
    ++ ((if query.paid then lateral_harvests else [])
        ++ (codes " WHERE " ++ join_and (list_conditions query)))

-- The statement of a page.
unfoldable pub page_statement : ListQuery → Text
page_statement query =
    codes "SELECT pm.*, COALESCE(m.paid, 0) AS milestones_paid, m.last_payout_at, "
    ++ (codes "COALESCE(m.net_eth, 0) AS net_paid_eth\n       FROM pool_metrics pm\n       "
        ++ (lateral_harvests
            ++ (codes "\n       WHERE "
                ++ (join_and (list_conditions query)
                    ++ (codes " ORDER BY "
                        ++ (list_order query.sort
                            ++ (codes " LIMIT "
                                ++ (to_text query.limit
                                    ++ (codes " OFFSET " ++ to_text query.skip)))))))))
