-- ===== src/Profiles.antt =====
-- The profiles of wallets: `update` and the reading of a profile in
-- src/modules/profiles/profiles.service.ts, on the rows of the table. Names are unique in lower case.
pub mod Names
use spawn_backend.Prelude.{
  ℕ, ◌==◌, ◌&&◌, not, Bool, true, false, if◌then◌else◌, List, [], ◌∷◌, Option, none, some,
}
use spawn_backend.Prelude.Outcome.{Outcome, ok, err}
use spawn_backend.Common.Decimal.{Text}
use spawn_backend.Common.Texts.{same_text, to_lower_case}

pub record Profile : Type 0 where
  pub wallet_address : ℕ
  pub username : Option Text
  pub username_folded : Option Text
  pub bio : Option Text
  pub image_uri : Option Text
  pub created_at : ℕ

-- What an update says of a field: nothing, or a new value, which may be null.
pub data Change : Type 0 where
  keep : Change
  set_to : Option Text → Change

pub record ProfileUpdate : Type 0 where
  pub username : Change
  pub bio : Change
  pub image_uri : Change

pub data ProfileError : Type 0 where
  profile_not_found username_taken : ProfileError

abbrev pub changed : Change → Option Text → Option Text
changed Change.keep old = old
changed (Change.set_to value) old = value

-- `username ? username.toLowerCase() : null`
unfoldable pub folded : Option Text → Option Text
folded none = none
folded (some []) = none
folded (some (c ∷ cs)) = some (to_lower_case (c ∷ cs))

unfoldable pub changed_folded : Change → Option Text → Option Text
changed_folded Change.keep old = old
changed_folded (Change.set_to value) old = folded value

unfoldable pub find_profile : ℕ → List Profile → Option Profile
find_profile wallet [] = none
find_profile wallet (p ∷ ps) =
    let later = find_profile wallet ps in if p.wallet_address == wallet then some p else later

unfoldable pub same_name : Option Text → Option Text → Bool
same_name none other = false
same_name (some a) none = false
same_name (some a) (some b) = same_text a b

-- Another wallet has the name.
unfoldable pub is_taken : ℕ → Option Text → List Profile → Bool
is_taken wallet name [] = false
is_taken wallet name (p ∷ ps) =
    let later = is_taken wallet name ps in
    if not (p.wallet_address == wallet) && same_name name p.username_folded then true else later

abbrev pub update_row : ProfileUpdate → Profile → Profile
update_row u p = record {
  wallet_address = p.wallet_address;
  username = changed u.username p.username;
  username_folded = changed_folded u.username p.username_folded;
  bio = changed u.bio p.bio;
  image_uri = changed u.image_uri p.image_uri;
  created_at = p.created_at;
}

abbrev pub new_profile : ℕ → ℕ → Profile
new_profile wallet now = record {
  wallet_address = wallet;
  username = none;
  username_folded = none;
  bio = none;
  image_uri = none;
  created_at = now;
}

abbrev pub row_or_new : ℕ → ℕ → Option Profile → Profile
row_or_new wallet now none = new_profile wallet now
row_or_new wallet now (some p) = p

unfoldable pub put_profile : Profile → List Profile → List Profile
put_profile row [] = row ∷ []
put_profile row (p ∷ ps) =
    let later = put_profile row ps in
    if p.wallet_address == row.wallet_address then row ∷ ps else p ∷ later

-- `update`: the row is updated, or created with the fields that are given.
unfoldable pub update_profile :
    ℕ → ℕ → ProfileUpdate → List Profile → Outcome ProfileError Profile × List Profile
update_profile wallet now u profiles =
    let row = update_row u (row_or_new wallet now (find_profile wallet profiles)) in
    if is_taken wallet row.username_folded profiles
    then (err ProfileError.username_taken, profiles)
    else (ok row, put_profile row profiles)

unfoldable pub found_profile : Option Profile → Outcome ProfileError Profile
found_profile none = err ProfileError.profile_not_found
found_profile (some p) = ok p

-- The reading of a profile, where the cache has no answer.
unfoldable pub get_profile : ℕ → List Profile → Outcome ProfileError Profile
get_profile wallet profiles = found_profile (find_profile wallet profiles)
