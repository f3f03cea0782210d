-- ===== src/Infrastructure/Reads/Methods.antt =====
-- The methods of `ProtocolReadService`, src/infrastructure/blockchain/protocol-read.service.ts, over the
-- contracts: each call with a cache takes the time at which it is made and the time at which its read
-- ends.
use spawn_backend.Prelude.{
  ℕ, ltb, ◌==◌, ◌||◌, not, Bool, if◌then◌else◌, List, [], ◌∷◌, Option, none, some,
}
use spawn_backend.Prelude.Outcome.{Outcome, ok, err, ◌>>=◌}
use spawn_backend.Common.Decimal.{Text, to_text}
use spawn_backend.Common.Texts.{codes, to_lower_case}
use spawn_backend.Common.Trim.{is_blank}
use spawn_backend.Infrastructure.Addresses.{AddressBook}
use spawn_backend.Infrastructure.Reads.Views.{
  ProtocolTemplateView, EconomicConfigView, PoolStateView, Slot0View, PluginEntryView, ActionName,
  ControllerStateView,
}
use spawn_backend.Infrastructure.Reads.{
  ReadCaches, Contracts, through, slot0_of, cached_template, cached_economics, cached_pool_state,
  cached_slot0, cached_controller, store_template, store_economics, store_pool_state, store_slot0,
  store_controller,
}

unfoldable pub action_names : ℕ → ℕ → ℕ → ℕ → ℕ → ℕ → List (ℕ × ActionName)
action_names e r p s g o =
    (e, ActionName.set_economic_config)
    ∷ (r, ActionName.set_protocol_recipient)
    ∷ (p, ActionName.register_plugin)
    ∷ (s, ActionName.set_plugin_suspended)
    ∷ (g, ActionName.set_governance_delay)
    ∷ (o, ActionName.set_trusted_operator)
    ∷ []

-- The chain's book, and its contracts.
module _ {κ} {E : Type κ} (book : ℕ → Outcome E AddressBook) (contracts : Contracts E) where
  -- `hookRead`, `registryRead` and `controllerRead`, by what they read at the address.
  unfoldable pub hook_read {ℓ} : {A : Type ℓ} → ℕ → (Text → Outcome E A) → Outcome E A
  hook_read chain_id read = book chain_id >>= λ b. read b.protocol.hook

  unfoldable pub registry_read {ℓ} : {A : Type ℓ} → ℕ → (Text → Outcome E A) → Outcome E A
  registry_read chain_id read = book chain_id >>= λ b. read b.protocol.payout_plugin_registry

  unfoldable pub controller_read {ℓ} : {A : Type ℓ} → ℕ → (Text → Outcome E A) → Outcome E A
  controller_read chain_id read = book chain_id >>= λ b. read b.protocol.protocol_controller

  -- `template`
  unfoldable pub protocol_template :
      ℕ → ℕ → ℕ → ReadCaches → Outcome E ProtocolTemplateView × ReadCaches
  protocol_template now ended chain_id s =
      through (cached_template now chain_id s)
        (hook_read chain_id (contracts.read_template chain_id))
        (λ value. store_template ended chain_id value) s

  -- `economicConfig`
  unfoldable pub economic_config :
      ℕ → ℕ → ℕ → ReadCaches → Outcome E EconomicConfigView × ReadCaches
  economic_config now ended chain_id s =
      through (cached_economics now chain_id s)
        (hook_read chain_id (contracts.read_economic_config chain_id))
        (λ value. store_economics ended chain_id value) s

  -- `poolState`
  unfoldable pub pool_state : ℕ → ℕ → ℕ → Text → ReadCaches → Outcome E PoolStateView × ReadCaches
  pool_state now ended chain_id pool_id s =
      through (cached_pool_state now chain_id pool_id s)
        (hook_read chain_id (λ address. contracts.read_pool_state chain_id address pool_id))
        (λ value. store_pool_state ended chain_id pool_id value) s

  unfoldable pub some_outcome :
      Outcome E Slot0View × ReadCaches → Outcome E (Option Slot0View) × ReadCaches
  some_outcome (err fault, s) = (err fault, s)
  some_outcome (ok value, s) = (ok (some value), s)

  -- `slot0`: none where the chain's book has no view of the state.
  unfoldable pub slot0 : ℕ → ℕ → ℕ → Text → ReadCaches → Outcome E (Option Slot0View) × ReadCaches
  slot0 now ended chain_id pool_id s = with_book (book chain_id)
    where
      at_view : Text → Outcome E (Option Slot0View) × ReadCaches
      at_view view = some_outcome (
          through (cached_slot0 now chain_id pool_id s)
            (contracts.read_slot0 chain_id view pool_id >>= λ raw. ok (slot0_of raw))
            (λ value. store_slot0 ended chain_id pool_id value) s)

      if_set : Option Text → Outcome E (Option Slot0View) × ReadCaches
      if_set none = (ok none, s)
      if_set (some view) = if is_blank view then (ok none, s) else at_view view

      with_book : Outcome E AddressBook → Outcome E (Option Slot0View) × ReadCaches
      with_book (err fault) = (err fault, s)
      with_book (ok b) = if_set b.state_view

  -- `registryEntry`
  unfoldable pub registry_entry : ℕ → ℕ → Outcome E PluginEntryView
  registry_entry chain_id index =
      registry_read chain_id (λ address. contracts.read_entry chain_id address index)

  unfoldable pub registry_entry_count : ℕ → Outcome E ℕ
  registry_entry_count chain_id =
      registry_read chain_id
        (λ address. contracts.read_number chain_id address (codes "entryCount") [])

  unfoldable pub controller_text : ℕ → Text → Outcome E Text
  controller_text chain_id name =
      controller_read chain_id (λ address. contracts.read_text chain_id address name)

  unfoldable pub controller_number : ℕ → Text → Outcome E ℕ
  controller_number chain_id name =
      controller_read chain_id (λ address. contracts.read_number chain_id address name [])

  -- The reads of `controllerState`, in the order in which the code names them; it makes all but the
  -- last at once.
  unfoldable pub read_controller_state : ℕ → Outcome E ControllerStateView
  read_controller_state chain_id =
      controller_text chain_id (codes "administrator") >>= λ administrator.
      controller_text chain_id (codes "pendingAdministrator") >>= λ pending.
      controller_number chain_id (codes "governanceDelay") >>= λ delay.
      controller_text chain_id (codes "protocolRecipient") >>= λ recipient.
      hook_read chain_id (λ address. contracts.read_text chain_id address (codes "trustedOperator"))
      >>= λ operator. controller_number chain_id (codes "ACTION_SET_ECONOMIC_CONFIG") >>= λ e.
          controller_number chain_id (codes "ACTION_SET_PROTOCOL_RECIPIENT") >>= λ r.
          controller_number chain_id (codes "ACTION_REGISTER_PLUGIN") >>= λ p.
          controller_number chain_id (codes "ACTION_SET_PLUGIN_SUSPENDED") >>= λ u.
          controller_number chain_id (codes "ACTION_SET_DELAY") >>= λ g.
          controller_number chain_id (codes "ACTION_SET_TRUSTED_OPERATOR") >>= λ o. ok (record {
            administrator = to_lower_case administrator;
            pending_administrator = to_lower_case pending;
            governance_delay = delay;
            protocol_recipient = to_lower_case recipient;
            trusted_operator = to_lower_case operator;
            actions = action_names e r p u g o;
          })

  -- `controllerState`: the cache has one entry, whatever the chain.
  unfoldable pub controller_state :
      ℕ → ℕ → ℕ → ReadCaches → Outcome E ControllerStateView × ReadCaches
  controller_state now ended chain_id s =
      through (cached_controller now s) (read_controller_state chain_id)
        (λ value. store_controller ended value) s

  -- A number that the hook keeps for a pool.
  unfoldable pub pool_number : ℕ → Text → List Text → Outcome E ℕ
  pool_number chain_id name args =
      hook_read chain_id (λ address. contracts.read_number chain_id address name args)

  unfoldable pub creator_claimable : ℕ → Text → Outcome E ℕ
  creator_claimable chain_id pool_id =
      pool_number chain_id (codes "creatorClaimable") (pool_id ∷ [])

  unfoldable pub creator_path_claimable : ℕ → Text → Outcome E ℕ
  creator_path_claimable chain_id pool_id =
      pool_number chain_id (codes "creatorPathClaimable") (pool_id ∷ [])

  unfoldable pub protocol_claimable : ℕ → Outcome E ℕ
  protocol_claimable chain_id = pool_number chain_id (codes "protocolClaimable") []

  unfoldable pub protocol_claim_backed : ℕ → Outcome E ℕ
  protocol_claim_backed chain_id = pool_number chain_id (codes "protocolClaimBacked") []

  unfoldable pub payout_pot : ℕ → Text → Outcome E ℕ
  payout_pot chain_id pool_id = pool_number chain_id (codes "payoutPot") (pool_id ∷ [])

  unfoldable pub plugin_carry : ℕ → Text → ℕ → Outcome E ℕ
  plugin_carry chain_id pool_id plugin_index =
      pool_number chain_id (codes "pluginCarry") (pool_id ∷ to_text plugin_index ∷ [])

  unfoldable pub carry_bitmap : ℕ → Text → Outcome E ℕ
  carry_bitmap chain_id pool_id = pool_number chain_id (codes "carryBitmap") (pool_id ∷ [])

  unfoldable pub flush_gas_ceiling : ℕ → Text → Outcome E ℕ
  flush_gas_ceiling chain_id pool_id = pool_number chain_id (codes "flushGasCeiling") (pool_id ∷ [])

  -- `flushSignal`
  unfoldable pub flush_signal : ℕ → Text → Outcome E Bool
  flush_signal chain_id pool_id = payout_pot chain_id pool_id >>= λ pot.
      carry_bitmap chain_id pool_id >>= λ carry. ok (ltb 0 pot || not (carry == 0))
