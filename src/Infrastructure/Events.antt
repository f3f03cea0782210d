-- ===== src/Infrastructure/Events.antt =====
-- The topics of the indexed events: src/infrastructure/blockchain/event-topics.ts. `toEventSignature` and
-- `toEventHash` of viem are parameters.
pub mod Kinds
pub mod HookEvents
pub mod Table
pub mod Lookups
use spawn_backend.Prelude.{
  ◌==◌, Bool, true, false, if◌then◌else◌, List, [], ◌∷◌, ◌++◌, map, Option, none, some,
}
use spawn_backend.Common.Decimal.{Text}
use spawn_backend.Common.TextDict.{TextDict, find_text, put_text}
use spawn_backend.Common.Texts.{to_lower_case}
use Kinds.{EventContract, hook, registry, controller, revenue_nft, token, pool_manager, EventEntry}
use Table.{entries}

pub record EventTopicEntry : Type 0 where
  pub contract : EventContract
  pub name : Text
  pub signature : Text
  pub topic0 : Text

-- The parts of viem that make a topic of a declaration.
pub record EventHashes : Type 0 where
  pub to_event_signature : Text → Text
  pub to_event_hash : Text → Text

abbrev pub same_contract : EventContract → EventContract → Bool
same_contract hook hook = true
same_contract registry registry = true
same_contract controller controller = true
same_contract revenue_nft revenue_nft = true
same_contract token token = true
same_contract pool_manager pool_manager = true
same_contract _ _ = false

-- The map behind the entries already met: the first one of a name stays.
unfoldable pub add_by_name : TextDict EventTopicEntry → EventTopicEntry → TextDict EventTopicEntry
add_by_name by_name entry = keep (find_text by_name entry.name)
  where
    keep : Option EventTopicEntry → TextDict EventTopicEntry
    keep (some first) = by_name
    keep none = put_text by_name entry.name entry

unfoldable pub names_from :
    TextDict EventTopicEntry → List EventTopicEntry → TextDict EventTopicEntry
names_from by_name [] = by_name
names_from by_name (entry ∷ rest) = names_from (add_by_name by_name entry) rest

unfoldable pub or_empty {ℓ} : {A : Type ℓ} → Option (List A) → List A
or_empty none = []
or_empty (some xs) = xs

-- `existing.push(entry)`
unfoldable pub add_by_topic :
    TextDict (List EventTopicEntry) → EventTopicEntry → TextDict (List EventTopicEntry)
add_by_topic by_topic entry =
    put_text by_topic entry.topic0 (or_empty (find_text by_topic entry.topic0) ++ entry ∷ [])

unfoldable pub topics_from :
    TextDict (List EventTopicEntry) → List EventTopicEntry → TextDict (List EventTopicEntry)
topics_from by_topic [] = by_topic
topics_from by_topic (entry ∷ rest) = topics_from (add_by_topic by_topic entry) rest

unfoldable pub of_contract : EventContract → List EventTopicEntry → List Text
of_contract contract [] = []
of_contract contract (entry ∷ rest) =
    let later = of_contract contract rest in
    if same_contract entry.contract contract then entry.topic0 ∷ later else later

module _ (viem : EventHashes) where
  unfoldable pub topic_entry : EventEntry → EventTopicEntry
  topic_entry entry =
      let canonical = viem.to_event_signature (entry.name ++ b'(' ∷ (entry.params ++ b')' ∷ [])) in
      record {
        contract = entry.contract;
        name = entry.name;
        signature = canonical;
        topic0 = viem.to_event_hash canonical;
      }

  -- `EVENT_TOPICS` and `topicEntries`
  unfoldable pub topic_entries : List EventTopicEntry
  topic_entries = map topic_entry entries

  -- `topicByName`
  unfoldable pub topic_by_name : Text → Option EventTopicEntry
  topic_by_name name = find_text (names_from [] topic_entries) name

  -- `topicsByContract`
  unfoldable pub topics_by_contract : EventContract → List Text
  topics_by_contract contract = of_contract contract topic_entries

  -- `entriesByTopic`
  unfoldable pub entries_by_topic : Text → List EventTopicEntry
  entries_by_topic topic0 =
      or_empty (find_text (topics_from [] topic_entries) (to_lower_case topic0))
