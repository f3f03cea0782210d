-- ===== src/Infrastructure/Events/Table.antt =====
-- The events that are indexed: `ENTRIES` of src/infrastructure/blockchain/event-topics.ts.
use spawn_backend.Prelude.{List, [], ◌∷◌, ◌++◌}
use spawn_backend.Common.Texts.{codes}
use spawn_backend.Infrastructure.Events.Kinds.{EventContract, EventEntry}
use spawn_backend.Infrastructure.Events.HookEvents.{hook_events}

abbrev pub registry_events : List EventEntry
registry_events =
    record {
      contract = EventContract.registry;
      name = codes "PluginRegistered";
      params =
          codes
            "uint8 indexed index, address indexed plugin, uint64 takeWad, uint32 gasLimit, bytes32 codeHash, uint8 role";
    }
    ∷ record {
      contract = EventContract.registry;
      name = codes "PluginSuspensionSet";
      params = codes "uint8 indexed index, bool suspended";
    }
    ∷ record {
      contract = EventContract.registry;
      name = codes "AdministratorProposed";
      params = codes "address indexed administrator, address indexed pendingAdministrator";
    }
    ∷ record {
      contract = EventContract.registry;
      name = codes "AdministratorAccepted";
      params = codes "address indexed previousAdministrator, address indexed administrator";
    }
    ∷ []

abbrev pub controller_events : List EventEntry
controller_events =
    record {
      contract = EventContract.controller;
      name = codes "AdministratorProposed";
      params = codes "address indexed administrator, address indexed pendingAdministrator";
    }
    ∷ record {
      contract = EventContract.controller;
      name = codes "AdministratorAccepted";
      params = codes "address indexed previousAdministrator, address indexed administrator";
    }
    ∷ record {
      contract = EventContract.controller;
      name = codes "OperationScheduled";
      params =
          codes
            "bytes32 indexed operationId, uint8 indexed action, bytes32 indexed salt, uint64 readyAt";
    }
    ∷ record {
      contract = EventContract.controller;
      name = codes "OperationExecuted";
      params = codes "bytes32 indexed operationId";
    }
    ∷ record {
      contract = EventContract.controller;
      name = codes "OperationCancelled";
      params = codes "bytes32 indexed operationId";
    }
    ∷ record {
      contract = EventContract.controller;
      name = codes "EconomicConfigUpdated";
      params =
          codes
            "uint64 indexed version, uint64 harvestServiceFeeWad, uint64 quoteCreatorShareWad, uint64 tokenMilestoneFundShareWad";
    }
    ∷ record {
      contract = EventContract.controller;
      name = codes "ProtocolRecipientUpdated";
      params = codes "address indexed previousRecipient, address indexed recipient";
    }
    ∷ record {
      contract = EventContract.controller;
      name = codes "GovernanceDelayUpdated";
      params = codes "uint64 previousDelay, uint64 newDelay";
    }
    ∷ record {
      contract = EventContract.controller;
      name = codes "ProtocolTargetBound";
      params = codes "address indexed target";
    }
    ∷ record {
      contract = EventContract.controller;
      name = codes "TrustedOperatorUpdated";
      params = codes "address indexed previousOperator, address indexed operator";
    }
    ∷ []

abbrev pub revenue_nft_events : List EventEntry
revenue_nft_events =
    record {
      contract = EventContract.revenue_nft;
      name = codes "MinterSet";
      params = codes "address indexed minter";
    }
    ∷ record {
      contract = EventContract.revenue_nft;
      name = codes "Transfer";
      params = codes "address indexed from, address indexed to, uint256 indexed tokenId";
    }
    ∷ record {
      contract = EventContract.revenue_nft;
      name = codes "Approval";
      params = codes "address indexed owner, address indexed approved, uint256 indexed tokenId";
    }
    ∷ record {
      contract = EventContract.revenue_nft;
      name = codes "ApprovalForAll";
      params = codes "address indexed owner, address indexed operator, bool approved";
    }
    ∷ []

abbrev pub token_events : List EventEntry
token_events =
    record {
      contract = EventContract.token;
      name = codes "Transfer";
      params = codes "address indexed from, address indexed to, uint256 value";
    }
    ∷ record {
      contract = EventContract.token;
      name = codes "Approval";
      params = codes "address indexed owner, address indexed spender, uint256 value";
    }
    ∷ []

abbrev pub pool_manager_events : List EventEntry
pool_manager_events =
    record {
      contract = EventContract.pool_manager;
      name = codes "Initialize";
      params =
          codes
            "bytes32 indexed poolId, address indexed currency0, address indexed currency1, uint24 fee, int24 tickSpacing, address hooks, uint160 sqrtPriceX96, int24 tick";
    }
    ∷ record {
      contract = EventContract.pool_manager;
      name = codes "ModifyLiquidity";
      params =
          codes
            "bytes32 indexed poolId, address indexed sender, int24 tickLower, int24 tickUpper, int256 liquidityDelta, bytes32 salt";
    }
    ∷ record {
      contract = EventContract.pool_manager;
      name = codes "Swap";
      params =
          codes
            "bytes32 indexed poolId, address indexed sender, int128 amount0, int128 amount1, uint160 sqrtPriceX96, uint128 liquidity, int24 tick, uint24 lpFee";
    }
    ∷ []

abbrev pub entries : List EventEntry
entries =
    hook_events
    ++ (registry_events
        ++ (controller_events ++ (revenue_nft_events ++ (token_events ++ (pool_manager_events)))))
