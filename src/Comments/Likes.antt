-- ===== src/Comments/Likes.antt =====
-- The likes of comments: `like`, `unlike` and `getStatus` of
-- src/modules/comments/comment-likes.service.ts. Each transaction is serializable, so it is one
-- function of the rows; the cache of answers is not modelled.
pub mod Counts
use spawn_backend.Prelude.{
  ℕ, ◌+◌, ◌-◌, Bool, true, false, not, ◌==◌, ◌&&◌, if◌then◌else◌, List, [], ◌∷◌, Option, none, some,
}
use spawn_backend.Prelude.Int.{ℤ, pos, ◌+ℤ◌, ◌-ℤ◌}
use spawn_backend.Common.Dict.{Dict, find, put}

pub record Comment : Type 0 where
  pub token_db_id : ℕ
  pub is_deleted : Bool
  pub like_count : ℤ

-- A row of the likes.
pub record Like : Type 0 where
  pub comment_id : ℕ
  pub wallet_address : ℕ

pub record Rows : Type 0 where
  pub comments : Dict Comment
  pub likes : List Like

pub record Status : Type 0 where
  pub comment_id : ℕ
  pub wallet_address : ℕ
  pub liked : Bool
  pub like_count : ℤ

-- What a call comes to: `COMMENT_NOT_FOUND`, or a status and the token whose cache generation it
-- advances.
pub data Answer : Type 0 where
  comment_not_found : Answer
  status : Status → Option ℕ → Answer

abbrev pub is_like : ℕ → ℕ → Like → Bool
is_like comment_id wallet l = l.comment_id == comment_id && l.wallet_address == wallet

unfoldable pub has_like : ℕ → ℕ → List Like → Bool
has_like comment_id wallet [] = false
has_like comment_id wallet (l ∷ ls) =
    let later = has_like comment_id wallet ls in if is_like comment_id wallet l then true else later

-- `deleteMany`
unfoldable pub delete_likes : ℕ → ℕ → List Like → List Like
delete_likes comment_id wallet [] = []
delete_likes comment_id wallet (l ∷ ls) =
    let later = delete_likes comment_id wallet ls in
    if is_like comment_id wallet l then later else l ∷ later

abbrev pub set_count : ℤ → Comment → Comment
set_count count c = record {
  token_db_id = c.token_db_id;
  is_deleted = c.is_deleted;
  like_count = count;
}

abbrev pub answer : ℕ → ℕ → Bool → ℤ → Option ℕ → Answer
answer comment_id wallet liked count generation =
    Answer.status
      (record {
        comment_id = comment_id;
        wallet_address = wallet;
        liked = liked;
        like_count = count;
      })
      generation

unfoldable pub like_found : ℕ → ℕ → Option Comment → Rows → Answer × Rows
like_found comment_id wallet none s = (Answer.comment_not_found, s)
like_found comment_id wallet (some c) s =
    if c.is_deleted
    then (Answer.comment_not_found, s)
    else if has_like comment_id wallet s.likes
    then (answer comment_id wallet true c.like_count none, s)
    else (
      answer comment_id wallet true (c.like_count +ℤ pos 1) (some c.token_db_id),
      record {
        comments = put s.comments comment_id (set_count (c.like_count +ℤ pos 1) c);
        likes = record { comment_id = comment_id; wallet_address = wallet } ∷ s.likes;
      },
    )

-- `like`
unfoldable pub like : ℕ → ℕ → Rows → Answer × Rows
like comment_id wallet s = like_found comment_id wallet (find s.comments comment_id) s

unfoldable pub unlike_found : ℕ → ℕ → Option Comment → Rows → Answer × Rows
unlike_found comment_id wallet none s = (Answer.comment_not_found, s)
unlike_found comment_id wallet (some c) s =
    if has_like comment_id wallet s.likes
    then (
      answer comment_id wallet false (c.like_count -ℤ pos 1) (some c.token_db_id),
      record {
        comments = put s.comments comment_id (set_count (c.like_count -ℤ pos 1) c);
        likes = delete_likes comment_id wallet s.likes;
      },
    )
    else (answer comment_id wallet false c.like_count none, s)

-- `unlike`
unfoldable pub unlike : ℕ → ℕ → Rows → Answer × Rows
unlike comment_id wallet s = unlike_found comment_id wallet (find s.comments comment_id) s

unfoldable pub status_found : ℕ → ℕ → Option Comment → Rows → Answer
status_found comment_id wallet none s = Answer.comment_not_found
status_found comment_id wallet (some c) s =
    answer comment_id wallet (has_like comment_id wallet s.likes) c.like_count none

-- `getStatus`, where the cache has no answer.
unfoldable pub get_status : ℕ → ℕ → Rows → Answer
get_status comment_id wallet s = status_found comment_id wallet (find s.comments comment_id) s
