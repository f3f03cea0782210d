-- ===== src/Infrastructure/SignInMessage.antt =====
-- The message that a wallet signs in with: `issueNonce` of
-- src/infrastructure/auth/wallet-auth.service.ts. `toISOString` is a parameter.
use spawn_backend.Prelude.{ℕ, [], ◌∷◌, ◌++◌}
use spawn_backend.Common.Decimal.{Text}

-- 'Spawn wants you to sign in.\n\nAddress: '
abbrev wants_you : Text
wants_you =
    83 ∷ 112 ∷ 97 ∷ 119 ∷ 110 ∷ 32 ∷ 119 ∷ 97 ∷ 110 ∷ 116 ∷ 115 ∷ 32 ∷ 121 ∷ 111 ∷ 117 ∷ 32 ∷ 116
    ∷ 111 ∷ 32 ∷ 115 ∷ 105 ∷ 103 ∷ 110 ∷ 32 ∷ 105 ∷ 110 ∷ 46 ∷ 10 ∷ 10 ∷ 65 ∷ 100 ∷ 100 ∷ 114 ∷ 101
    ∷ 115 ∷ 115 ∷ 58 ∷ 32 ∷ []

-- '\nNonce: '
abbrev nonce_line : Text
nonce_line = 10 ∷ 78 ∷ 111 ∷ 110 ∷ 99 ∷ 101 ∷ 58 ∷ 32 ∷ []

-- '\nIssued: '
abbrev issued_line : Text
issued_line = 10 ∷ 73 ∷ 115 ∷ 115 ∷ 117 ∷ 101 ∷ 100 ∷ 58 ∷ 32 ∷ []

-- '\n\nThis signature only proves wall'
abbrev only_proves : Text
only_proves =
    10 ∷ 10 ∷ 84 ∷ 104 ∷ 105 ∷ 115 ∷ 32 ∷ 115 ∷ 105 ∷ 103 ∷ 110 ∷ 97 ∷ 116 ∷ 117 ∷ 114 ∷ 101 ∷ 32
    ∷ 111 ∷ 110 ∷ 108 ∷ 121 ∷ 32 ∷ 112 ∷ 114 ∷ 111 ∷ 118 ∷ 101 ∷ 115 ∷ 32 ∷ 119 ∷ 97 ∷ 108 ∷ 108
    ∷ []

-- 'et ownership. It is free and gran'
abbrev costs_nothing : Text
costs_nothing =
    101 ∷ 116 ∷ 32 ∷ 111 ∷ 119 ∷ 110 ∷ 101 ∷ 114 ∷ 115 ∷ 104 ∷ 105 ∷ 112 ∷ 46 ∷ 32 ∷ 73 ∷ 116 ∷ 32
    ∷ 105 ∷ 115 ∷ 32 ∷ 102 ∷ 114 ∷ 101 ∷ 101 ∷ 32 ∷ 97 ∷ 110 ∷ 100 ∷ 32 ∷ 103 ∷ 114 ∷ 97 ∷ 110 ∷ []

-- 'ts no permission to move funds.'
abbrev no_funds : Text
no_funds =
    116 ∷ 115 ∷ 32 ∷ 110 ∷ 111 ∷ 32 ∷ 112 ∷ 101 ∷ 114 ∷ 109 ∷ 105 ∷ 115 ∷ 115 ∷ 105 ∷ 111 ∷ 110 ∷ 32
    ∷ 116 ∷ 111 ∷ 32 ∷ 109 ∷ 111 ∷ 118 ∷ 101 ∷ 32 ∷ 102 ∷ 117 ∷ 110 ∷ 100 ∷ 115 ∷ 46 ∷ []

-- The lines of the message, joined by line ends.
unfoldable pub nonce_message : (ℕ → Text) → Text → Text → ℕ → Text
nonce_message to_iso_string wallet nonce now =
    wants_you
    ++ wallet
    ++ nonce_line
    ++ nonce
    ++ issued_line
    ++ to_iso_string now
    ++ only_proves
    ++ costs_nothing
    ++ no_funds
