-- ===== src/Tests/Tokens.antt =====
-- A token that is created once, and a creation whose upload fails.
use spawn_backend.Prelude.{◌≡◌, ◌≤◌, refl, [], ◌∷◌, none}
use spawn_backend.Prelude.Outcome.{ok}
use spawn_backend.Tokens.Creation.{
  CreateTokenInput, StoredMetadata, CreationStore, CreationStart, Commit, create_start, start_with,
  find_creation, reserve_creation, create_finish,
}
use spawn_backend.Tokens.Creation.Keys.{CreationStep, CreationRun, made_by, one_token}

abbrev input : CreateTokenInput
input = record {
  creator_wallet_address = 9;
  name = b'n' ∷ [];
  symbol = b'S' ∷ [];
  description = [];
  image_uri = [];
  socials = none;
}

abbrev metadata : StoredMetadata
metadata = record { ipfs_uri = b'q' ∷ []; gateway_url = b'g' ∷ [] }

abbrev empty : CreationStore
empty = record { requests = []; tokens = []; profiles = [] }

abbrev reserved : CreationStore
reserved = reserve_creation 77 9 4 empty

abbrev created : CreationStore
created = (create_finish 77 input 4 1 (ok metadata) Commit.committed reserved).1

reserves_first : create_start 77 9 4 empty ≡ CreationStart.reserves
unfolding create_start start_with find_creation
reserves_first = refl

creation :
    CreationRun
      (record { store = empty; in_flight = [] })
      (record { store = created; in_flight = [] })
creation =
    CreationRun.then _ (record { store = reserved; in_flight = (9, 4) ∷ [] }) _
      (CreationRun.then _ (record { store = empty; in_flight = [] }) _ (CreationRun.done _)
        (CreationStep.reserves 77 9 4 empty [] reserves_first))
      (CreationStep.finishes 77 4 1 input (ok metadata) Commit.committed reserved [] [])

one_token_example : made_by 9 4 created.tokens ≤ 1
one_token_example = one_token empty (record { store = created; in_flight = [] }) 9 4 refl creation
