-- ===== src/Comments/Resolver.antt =====
-- The token that a reference names: `CommentTokenResolver` of
-- src/modules/comments/comment-token-resolver.ts. A reference comes with what its lower-case text looks
-- like; the tables of the sink are rows, and the identifier of a new token is an argument.
use spawn_backend.Prelude.{
  ℕ, ◌==◌, ◌&&◌, Bool, true, false, if◌then◌else◌, List, [], ◌∷◌, Option, none, some, take,
}
use spawn_backend.Common.Decimal.{Text}
use spawn_backend.Common.Dict.{Dict, find}

-- A UUID, an address of 42 characters, a pool of 66, or a text that is none of them.
pub data TokenRef : Type 0 where
  uuid : ℕ → TokenRef
  token_address : ℕ → TokenRef
  pool : ℕ → TokenRef
  unknown : TokenRef

pub record SinkToken : Type 0 where
  pub name : Text
  pub symbol : Text
  pub uri : Text

-- A row of the tokens; a token made in advance has no address.
pub record KnownToken : Type 0 where
  pub id : ℕ
  pub chain_id : ℕ
  pub token : Option ℕ
  pub name : Text
  pub symbol : Text
  pub uri : Text
  pub is_from_indexer : Bool

pub record ResolverTables : Type 0 where
  pub tokens : List KnownToken
  pub sink_pools : Dict ℕ
  pub sink_tokens : Dict SinkToken

unfoldable pub has_id : ℕ → List KnownToken → Option ℕ
has_id id [] = none
has_id id (t ∷ ts) = let later = has_id id ts in if t.id == id then some t.id else later

abbrev pub is_token : ℕ → Option ℕ → Bool
is_token address none = false
is_token address (some token) = token == address

-- `findFirst` of a token on a chain.
unfoldable pub find_on_chain : ℕ → ℕ → List KnownToken → Option ℕ
find_on_chain chain address [] = none
find_on_chain chain address (t ∷ ts) =
    let later = find_on_chain chain address ts in
    if t.chain_id == chain && is_token address t.token then some t.id else later

-- `a || b` on texts, where the empty text is false.
abbrev pub text_or : Text → Text → Text
text_or [] other = other
text_or (c ∷ cs) other = c ∷ cs

abbrev pub unknown_symbol : Text
unknown_symbol = b'U' ∷ b'N' ∷ b'K' ∷ b'N' ∷ b'O' ∷ b'W' ∷ b'N' ∷ []

-- The row that is made of the sink's; `text_of` gives the text of an address.
abbrev pub provisioned : (ℕ → Text) → ℕ → ℕ → ℕ → SinkToken → KnownToken
provisioned text_of id chain address sink = record {
  id = id;
  chain_id = chain;
  token = some address;
  name = text_or sink.name (text_of address);
  symbol = take 12 (text_or sink.symbol unknown_symbol);
  uri = sink.uri;
  is_from_indexer = true;
}

-- `provisionFromSink`, where no other call makes the row in between.
unfoldable pub provision_from_sink :
    (ℕ → Text) → ℕ → ℕ → ℕ → ResolverTables → Option ℕ × ResolverTables
provision_from_sink text_of id chain address s = from (find s.sink_tokens address)
  where
    from : Option SinkToken → Option ℕ × ResolverTables
    from none = (none, s)
    from (some sink) =
        (some id, record s { tokens = provisioned text_of id chain address sink ∷ s.tokens })

unfoldable pub resolve_address : (ℕ → Text) → ℕ → ℕ → ℕ → ResolverTables → Option ℕ × ResolverTables
resolve_address text_of id chain address s = known (find_on_chain chain address s.tokens)
  where
    known : Option ℕ → Option ℕ × ResolverTables
    known (some found) = (some found, s)
    known none = provision_from_sink text_of id chain address s

-- `resolve`; no token is the refusal TOKEN_NOT_FOUND.
unfoldable pub resolve : (ℕ → Text) → ℕ → ℕ → TokenRef → ResolverTables → Option ℕ × ResolverTables
resolve text_of id chain TokenRef.unknown s = (none, s)
resolve text_of id chain (TokenRef.uuid token) s = (has_id token s.tokens, s)
resolve text_of id chain (TokenRef.token_address address) s =
    resolve_address text_of id chain address s
resolve text_of id chain (TokenRef.pool pool_id) s = at (find s.sink_pools pool_id)
  where
    at : Option ℕ → Option ℕ × ResolverTables
    at none = (none, s)
    at (some address) = resolve_address text_of id chain address s
