-- ===== src/Infrastructure/Events/HookEvents.antt =====
-- The events of the hook among the `ENTRIES` of src/infrastructure/blockchain/event-topics.ts.
use spawn_backend.Prelude.{List, [], ◌∷◌}
use spawn_backend.Common.Texts.{codes}
use spawn_backend.Infrastructure.Events.Kinds.{EventContract, EventEntry}

abbrev pub hook_events : List EventEntry
hook_events =
    record {
      contract = EventContract.hook;
      name = codes "Launched";
      params =
          codes
            "bytes32 indexed poolId, address indexed creator, address indexed token, string name, string symbol, string uri, uint256 totalSupply, int24 openingLevel, int24 farLevel, bytes32 configHash";
    }
    ∷ record {
      contract = EventContract.hook;
      name = codes "LaunchConfigured";
      params = codes "bytes32 indexed poolId, uint256 payoutPlan, uint64 devBuyShareWad";
    }
    ∷ record {
      contract = EventContract.hook;
      name = codes "DevBuyExecuted";
      params = codes "bytes32 indexed poolId, uint256 tokensBought, uint256 ethSpent";
    }
    ∷ record {
      contract = EventContract.hook;
      name = codes "DevBuySkipped";
      params = codes "bytes32 indexed poolId, address indexed relayer, uint256 tokensRequested";
    }
    ∷ record {
      contract = EventContract.hook;
      name = codes "CurvePositionsDeployed";
      params =
          codes "bytes32 indexed poolId, uint256 minted, uint32 deployed, uint256 tokenSettled";
    }
    ∷ record {
      contract = EventContract.hook;
      name = codes "BandDeployed";
      params =
          codes
            "bytes32 indexed poolId, uint32 indexed index, int24 levelLower, int24 levelUpper, uint128 liquidity, uint256 tokenInventory";
    }
    ∷ record {
      contract = EventContract.hook;
      name = codes "BandSkipped";
      params = codes "bytes32 indexed poolId, uint32 indexed index, uint256 carriedInventory";
    }
    ∷ record {
      contract = EventContract.hook;
      name = codes "MilestoneHarvested";
      params =
          codes
            "bytes32 indexed poolId, uint32 indexed index, uint256 quoteProceeds, uint256 tokenResidue, uint32 completedMilestones";
    }
    ∷ record {
      contract = EventContract.hook;
      name = codes "Graduated";
      params =
          codes
            "bytes32 indexed poolId, int24 graduationLevel, uint256 quoteProceeds, uint256 lpSeedQuote, uint256 creatorQuote, uint256 protocolQuote, uint128 fullRangeLiquidity, uint128 wallLiquidity";
    }
    ∷ record {
      contract = EventContract.hook;
      name = codes "PayoutPotFunded";
      params =
          codes
            "bytes32 indexed poolId, uint32 indexed milestoneIndex, uint256 grossQuote, uint256 serviceFee, uint256 netQuote, uint64 economicVersion";
    }
    ∷ record {
      contract = EventContract.hook;
      name = codes "PayoutPotRedeemed";
      params = codes "bytes32 indexed poolId, uint256 amount";
    }
    ∷ record {
      contract = EventContract.hook;
      name = codes "PayoutTipPaid";
      params = codes "bytes32 indexed poolId, address indexed recipient, uint256 amount";
    }
    ∷ record {
      contract = EventContract.hook;
      name = codes "PluginPayoutDelivered";
      params =
          codes
            "bytes32 indexed poolId, uint8 indexed pluginIndex, address indexed plugin, uint256 currentShare, uint256 previousCarry, uint256 delivered";
    }
    ∷ record {
      contract = EventContract.hook;
      name = codes "PluginPayoutCarried";
      params =
          codes
            "bytes32 indexed poolId, uint8 indexed pluginIndex, address indexed plugin, uint256 currentShare, uint256 previousCarry, uint256 carried";
    }
    ∷ record {
      contract = EventContract.hook;
      name = codes "PluginPayoutRedirected";
      params =
          codes
            "bytes32 indexed poolId, uint8 indexed pluginIndex, uint256 currentShare, uint256 previousCarry, uint256 redirected";
    }
    ∷ record {
      contract = EventContract.hook;
      name = codes "CreatorPathAccrued";
      params = codes "bytes32 indexed poolId, uint256 amount";
    }
    ∷ record {
      contract = EventContract.hook;
      name = codes "CreatorPathClaimed";
      params = codes "bytes32 indexed poolId, address indexed holder, uint256 amount";
    }
    ∷ record {
      contract = EventContract.hook;
      name = codes "CreatorPathClaimFailed";
      params = codes "bytes32 indexed poolId, address indexed holder, uint256 amount";
    }
    ∷ record {
      contract = EventContract.hook;
      name = codes "CreatorAccrued";
      params = codes "bytes32 indexed poolId, uint256 amount, uint8 source, uint64 economicVersion";
    }
    ∷ record {
      contract = EventContract.hook;
      name = codes "CreatorClaimed";
      params = codes "bytes32 indexed poolId, address indexed holder, uint256 amount";
    }
    ∷ record {
      contract = EventContract.hook;
      name = codes "ProtocolAccrued";
      params = codes "bytes32 indexed poolId, uint256 amount, uint8 source, uint64 economicVersion";
    }
    ∷ record {
      contract = EventContract.hook;
      name = codes "ProtocolClaimed";
      params = codes "address indexed recipient, uint256 amount";
    }
    ∷ record {
      contract = EventContract.hook;
      name = codes "FeesCollected";
      params =
          codes
            "bytes32 indexed poolId, address indexed caller, uint256 quoteFees, uint256 tokenFees";
    }
    ∷ record {
      contract = EventContract.hook;
      name = codes "FeesRouted";
      params =
          codes
            "bytes32 indexed poolId, uint256 creatorQuote, uint256 protocolQuote, uint256 divertedToNextBand, uint256 tokensBurned, uint64 economicVersion";
    }
    ∷ record {
      contract = EventContract.hook;
      name = codes "EconomicConfigSet";
      params =
          codes
            "uint64 indexed version, uint64 harvestServiceFeeWad, uint64 quoteCreatorShareWad, uint64 tokenMilestoneFundShareWad";
    }
    ∷ record {
      contract = EventContract.hook;
      name = codes "ProtocolRecipientSet";
      params = codes "address indexed recipient";
    }
    ∷ record {
      contract = EventContract.hook;
      name = codes "TrustedOperatorSet";
      params = codes "address indexed operator";
    }
    ∷ []
