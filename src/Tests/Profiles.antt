-- ===== src/Tests/Profiles.antt =====
-- A name that is taken in another case, and quotes that coalesce.
use spawn_backend.Prelude.{ℕ, ◌≡◌, refl, false, List, [], ◌∷◌, none, some}
use spawn_backend.Common.Decimal.{Text}
use spawn_backend.Profiles.Names.{update_all-apart}
use spawn_backend.Prelude.Outcome.{err}
use spawn_backend.Common.Dict.{find, put}
use spawn_backend.Common.Texts.{same_text, to_lower_case, lower_char}
use spawn_backend.Profiles.{
  Profile, Change, ProfileUpdate, ProfileError, find_profile, folded, changed_folded, same_name,
  is_taken, put_profile, update_profile,
}
use spawn_backend.Trading.QuoteCache.{QuoteCache, QuoteAnswer, live_quote, cached_quote}

abbrev named : ProfileUpdate
named = record {
  username = Change.set_to (some (b'A' ∷ b'b' ∷ []));
  bio = Change.keep;
  image_uri = Change.keep;
}

abbrev named_alike : ProfileUpdate
named_alike = record {
  username = Change.set_to (some (b'a' ∷ b'B' ∷ []));
  bio = Change.keep;
  image_uri = Change.keep;
}

taken :
    (update_profile 8 20 named_alike (update_profile 9 10 named []).1).0
    ≡ err ProfileError.username_taken
unfolding update_profile find_profile folded changed_folded same_name is_taken put_profile same_text
    to_lower_case lower_char
taken = refl

abbrev no_quotes : QuoteCache
no_quotes = record { quotes = []; in_flight = [] }

coalesced : (cached_quote 5 7 2 (cached_quote 1 7 1 no_quotes).1).0 ≡ QuoteAnswer.joins 1
unfolding cached_quote live_quote find put
coalesced = refl

abbrev named_other : ProfileUpdate
named_other = record {
  username = Change.set_to (some (b'c' ∷ b'D' ∷ []));
  bio = Change.keep;
  image_uri = Change.keep;
}

abbrev two_names : List (ℕ × ℕ × ProfileUpdate)
two_names = (9, 10, named) ∷ (8, 20, named_alike) ∷ (8, 30, named_other) ∷ []

abbrev profile_of : ℕ → Text → Text → ℕ → Profile
profile_of wallet name folded_name now = record {
  wallet_address = wallet;
  username = some name;
  username_folded = some folded_name;
  bio = none;
  image_uri = none;
  created_at = now;
}

update_all-apart_example :
    ((profile_of 9 [] [] 0).wallet_address ≡ 9)
    × (same_name (folded (some (b'A' ∷ b'b' ∷ []))) (folded (some (b'c' ∷ b'D' ∷ []))) ≡ false)
unfolding update_profile find_profile folded changed_folded same_name is_taken put_profile same_text
    to_lower_case lower_char
update_all-apart_example =
    update_all-apart two_names 9 8 (profile_of 9 (b'A' ∷ b'b' ∷ []) (b'a' ∷ b'b' ∷ []) 10)
      (profile_of 8 (b'c' ∷ b'D' ∷ []) (b'c' ∷ b'd' ∷ []) 30) refl refl refl
