-- ===== src/Tests/Statements.antt =====
-- A search text with a quote in a statement, and the topics of events.
use spawn_backend.Prelude.{◌≡◌, ◌++◌, ◌∷◌, map}
use spawn_backend.Common.Texts.{codes, to_lower_case}
use spawn_backend.Infrastructure.Events.{EventHashes, topic_entries, entries_by_topic}
use spawn_backend.Infrastructure.Events.Lookups.{with_text, entries_by_topic-eq-with_text}
use spawn_backend.Tokens.Listing.{search_condition}
use spawn_backend.Tokens.Listing.Search.{
  code, literal, in_code, read_sql, read_sql-search_condition,
}

read_sql-search_condition_example :
    read_sql in_code (search_condition (codes "o'; DROP") ++ codes " ORDER BY x")
    ≡ map code (codes "(pm.name ILIKE ")
      ++ (literal (codes "%o'; DROP%")
          ∷ (map code (codes " OR pm.symbol ILIKE ")
              ++ (literal (codes "%o'; DROP%")
                  ∷ (code b')' ∷ read_sql in_code (codes " ORDER BY x")))))
read_sql-search_condition_example =
    read_sql-search_condition (codes "o'; DROP") (codes " ORDER BY x")

-- Hashes that keep the text of the declaration.
abbrev kept : EventHashes
kept = record { to_event_signature = λ text. text; to_event_hash = λ text. to_lower_case text }

entries_by_topic-eq-with_text_example :
    entries_by_topic kept (codes "AdministratorTransferStarted")
    ≡ with_text
        (λ e. e.topic0)
        (to_lower_case (codes "AdministratorTransferStarted"))
        (topic_entries kept)
entries_by_topic-eq-with_text_example =
    entries_by_topic-eq-with_text kept (codes "AdministratorTransferStarted")
