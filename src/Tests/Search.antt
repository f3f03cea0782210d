-- ===== src/Tests/Search.antt =====
-- The search for the largest buy, and the likes of a comment, at concrete inputs.
use spawn_backend.Prelude.{
  ℕ, ◌*◌, ◌^◌, ◌≡◌, refl, sym, Bool, true, false, leb, List, [], ◌∷◌, some, inl, inr, Bool-cases,
  ◌==◌, arith,
}
use spawn_backend.Prelude.Int.{pos}
use spawn_backend.Common.Dict.{find}
use spawn_backend.Trading.MaxBuy.{raise, highest_tried, max_buy}
use spawn_backend.Trading.MaxBuy.Search.{IsNear, max_buy-IsNear}
use spawn_backend.Comments.Likes.{Comment, Rows, has_like}
use spawn_backend.Comments.Likes.Counts.{
  IsUnique, IsConsistent, likes_of, LikeAction, perform_likes, perform_likes-IsConsistent,
}

abbrev up_to_three : ℕ → Bool
up_to_three amount = leb amount (3 * 10 ^ 18)

four_refused : up_to_three (highest_tried up_to_three) ≡ false
unfolding highest_tried raise
four_refused = refl

four_tried : highest_tried up_to_three ≡ 4 * 10 ^ 18
unfolding highest_tried raise
four_tried = refl

max_buy-IsNear_example :
    (lo : ℕ) × (max_buy up_to_three true ≡ some lo) × IsNear up_to_three lo (10 ^ 15)
max_buy-IsNear_example =
    max_buy-IsNear up_to_three (10 ^ 15) four_refused (omega arith) (omega (arith, four_tried))

abbrev first_comment : Comment
first_comment = record { token_db_id = 2; is_deleted = false; like_count = pos 1 }

abbrev rows : Rows
rows = record {
  comments = (1, first_comment) ∷ [];
  likes = record { comment_id = 1; wallet_address = 9 } ∷ [];
}

IsConsistent-rows : IsConsistent rows
unfolding IsUnique has_like likes_of find
IsConsistent-rows = record { unique = (refl, tt); counts = λ id c e. counted id c e }
  where
    counted :
        (id : ℕ) (c : Comment)
        → find rows.comments id ≡ some c
        → c.like_count ≡ pos (likes_of id rows.likes)
    counted id c e = elim (Bool-cases (1 == id)) [
      | inl one ↦
          (let h = rw one at e in let same : first_comment ≡ c = cc in rw (sym same, one) refl)
      | inr other ↦ (let h = rw other at e in cc)
    ]

abbrev actions : List LikeAction
actions = LikeAction.likes_comment 1 8 ∷ LikeAction.unlikes_comment 1 9 ∷ []

perform_likes-IsConsistent_example : IsConsistent (perform_likes actions rows)
perform_likes-IsConsistent_example = perform_likes-IsConsistent actions rows IsConsistent-rows
