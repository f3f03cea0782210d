-- ===== src/Comments/Threads.antt =====
-- The comments on tokens: `create`, `delete` and `replay` of src/modules/comments/comments.service.ts
-- and the generations of src/modules/comments/comment-cache-generation.ts. A serializable transaction
-- is one function of the rows, and one that throws leaves them as they were; the counts of likes are
-- in Comments.Likes. The UUID and the clock are arguments.
pub mod Balance
pub mod Counts
use spawn_backend.Prelude.{
  ℕ, ◌+◌, ◌==◌, ◌&&◌, ◌||◌, not, leb, Bool, true, false, if◌then◌else◌, List, [], ◌∷◌, Option, none,
  some,
}
use spawn_backend.Prelude.Int.{ℤ, pos, ◌+ℤ◌, ◌-ℤ◌}
use spawn_backend.Prelude.Outcome.{Outcome, ok, err}
use spawn_backend.Common.Decimal.{Text}
use spawn_backend.Common.Dict.{Dict, find, put}
use spawn_backend.Infrastructure.Cache.{Generations, apply_generation, get_generation}

pub record CommentRow : Type 0 where
  pub token_db_id : ℕ
  pub wallet_address : ℕ
  pub parent_id : Option ℕ
  pub root_id : ℕ
  pub depth : ℕ
  pub text : Option Text
  pub is_deleted : Bool
  pub deleted_at : Option ℕ
  pub reply_count : ℤ

-- A row of the idempotency requests in the scope of comments.
pub record CommentRequest : Type 0 where
  pub wallet_address : ℕ
  pub key : ℕ
  pub request_hash : ℕ
  pub completed : Bool
  pub resource_id : Option ℕ

-- The tables, and the generations in Redis. A generation's domain is the token.
pub record ThreadStore : Type 0 where
  pub comments : Dict CommentRow
  pub requests : List CommentRequest
  pub profiles : List ℕ
  pub generations : Dict ℕ
  pub outbox : List (ℕ × ℕ)
  pub cache : Generations

-- The body of a request, with the session's wallet.
pub record CommentInput : Type 0 where
  pub wallet_address : Option ℕ
  pub parent_comment_id : Option ℕ
  pub text : Text

pub data CommentError : Type 0 where
  session_invalid token_not_found comment_not_found : CommentError
  comment_parent_not_found comment_parent_deleted comment_max_depth : CommentError
  idempotency_key_reused request_in_progress : CommentError
  record_not_found : CommentError

-- The identifier of the comment that a call answers with, and whether it was there before.
pub record Created : Type 0 where
  pub id : ℕ
  pub row : CommentRow
  pub replayed : Bool

abbrev pub is_request_of : ℕ → ℕ → CommentRequest → Bool
is_request_of wallet key r = r.wallet_address == wallet && r.key == key

unfoldable pub find_request : ℕ → ℕ → List CommentRequest → Option CommentRequest
find_request wallet key [] = none
find_request wallet key (r ∷ rs) =
    let later = find_request wallet key rs in if is_request_of wallet key r then some r else later

unfoldable pub upsert_profile : ℕ → List ℕ → List ℕ
upsert_profile wallet [] = wallet ∷ []
upsert_profile wallet (p ∷ ps) =
    let later = upsert_profile wallet ps in if p == wallet then p ∷ ps else p ∷ later

-- `advanceCommentCacheGeneration`: the new generation of a token.
unfoldable pub next_generation : Option ℕ → ℕ
next_generation none = 1
next_generation (some generation) = generation + 1

unfoldable pub advance_generation : ℕ → ThreadStore → ThreadStore
advance_generation token s =
    let generation = next_generation (find s.generations token) in
    record s {
      generations = put s.generations token generation;
      outbox = (token, generation) ∷ s.outbox;
      cache = apply_generation token generation s.cache;
    }

-- `replyCount: { increment: by }` on a row; a row that is missing is an error.
unfoldable pub add_replies : ℤ → Option ℕ → Dict CommentRow → Option (Dict CommentRow)
add_replies by none comments = some comments
add_replies by (some parent) comments = bump (find comments parent)
  where
    bump : Option CommentRow → Option (Dict CommentRow)
    bump none = none
    bump (some row) =
        some (put comments parent (record row { reply_count = row.reply_count +ℤ by }))

-- The checks on the parent.
unfoldable pub check_parent : ℕ → Option ℕ → Dict CommentRow → Option CommentError
check_parent token none comments = none
check_parent token (some parent) comments = check (find comments parent)
  where
    check : Option CommentRow → Option CommentError
    check none = some CommentError.comment_parent_not_found
    check (some row) =
        if not (row.token_db_id == token)
        then some CommentError.comment_parent_not_found
        else if row.is_deleted
        then some CommentError.comment_parent_deleted
        else if leb 3 row.depth
        then some CommentError.comment_max_depth
        else none

abbrev pub new_comment : ℕ → ℕ → ℕ → CommentInput → CommentRow
new_comment token wallet id input = record {
  token_db_id = token;
  wallet_address = wallet;
  parent_id = input.parent_comment_id;
  root_id = id;
  depth = 0;
  text = some input.text;
  is_deleted = false;
  deleted_at = none;
  reply_count = pos 0;
}

-- `replay`
unfoldable pub replay_comment : CommentRequest → ℕ → Dict CommentRow → Outcome CommentError Created
replay_comment existing hash comments =
    if not (existing.request_hash == hash)
    then err CommentError.idempotency_key_reused
    else if existing.completed
    then at existing.resource_id
    else err CommentError.request_in_progress
  where
    answer_with : ℕ → Option CommentRow → Outcome CommentError Created
    answer_with id none = err CommentError.comment_not_found
    answer_with id (some found) = ok (record { id = id; row = found; replayed = true })

    at : Option ℕ → Outcome CommentError Created
    at none = err CommentError.request_in_progress
    at (some id) = answer_with id (find comments id)

-- The rows that the transaction of `create` leaves, where nothing in it throws.
unfoldable pub insert_comment :
    ℕ → ℕ → ℕ → ℕ → ℕ → CommentInput → Dict CommentRow → ThreadStore → ThreadStore
insert_comment token wallet key hash id input comments s = advance_generation token (record s {
  comments = comments;
  requests =
      record {
        wallet_address = wallet;
        key = key;
        request_hash = hash;
        completed = true;
        resource_id = some id;
      }
      ∷ s.requests;
  profiles = upsert_profile wallet s.profiles;
})

-- The transaction of `create` and its `catch`. A request with this key is there already, or the
-- identifier is: a unique constraint fails, and the request is read again.
unfoldable pub write_comment :
    ℕ → ℕ → ℕ → ℕ → ℕ → CommentInput → ThreadStore → Outcome CommentError Created × ThreadStore
write_comment token wallet key hash id input s = first (find_request wallet key s.requests)
  where
    added : Option (Dict CommentRow) → Outcome CommentError Created × ThreadStore
    added none = (err CommentError.record_not_found, s)
    added (some comments) = (
      ok (record { id = id; row = new_comment token wallet id input; replayed = false }),
      insert_comment token wallet key hash id input comments s,
    )

    insert : Option CommentRow → Outcome CommentError Created × ThreadStore
    insert (some taken) = (err CommentError.record_not_found, s)
    insert none = added (
        add_replies (pos 1) input.parent_comment_id
          (put s.comments id (new_comment token wallet id input)))

    checked : Option CommentError → Outcome CommentError Created × ThreadStore
    checked (some error) = (err error, s)
    checked none = insert (find s.comments id)

    first : Option CommentRequest → Outcome CommentError Created × ThreadStore
    first (some raced) = (replay_comment raced hash s.comments, s)
    first none = checked (check_parent token input.parent_comment_id s.comments)

-- `create`, with the token that the reference resolves to and the hash of the request.
unfoldable pub create_comment :
    (ℕ → CommentInput → ℕ)
    → Option ℕ
    → CommentInput
    → ℕ
    → ℕ
    → ThreadStore
    → Outcome CommentError Created × ThreadStore
create_comment request_hash token input key id s = signed input.wallet_address token
  where
    known : ℕ → ℕ → Option CommentRequest → Outcome CommentError Created × ThreadStore
    known wallet t (some existing) = (replay_comment existing (request_hash t input) s.comments, s)
    known wallet t none = write_comment t wallet key (request_hash t input) id input s

    signed : Option ℕ → Option ℕ → Outcome CommentError Created × ThreadStore
    signed none t = (err CommentError.session_invalid, s)
    signed (some wallet) none = (err CommentError.token_not_found, s)
    signed (some wallet) (some t) = known wallet t (find_request wallet key s.requests)

abbrev pub mark_deleted : ℕ → CommentRow → CommentRow
mark_deleted now row = record row { is_deleted = true; text = none; deleted_at = some now }

-- `delete`
unfoldable pub delete_comment :
    ℕ → ℕ → ℕ → ThreadStore → Outcome CommentError CommentRow × ThreadStore
delete_comment id wallet now s = found (find s.comments id)
  where
    counted : CommentRow → Option (Dict CommentRow) → Outcome CommentError CommentRow × ThreadStore
    counted row none = (err CommentError.record_not_found, s)
    counted row (some comments) = (
      ok (mark_deleted now row),
      advance_generation row.token_db_id (record s { comments = comments }),
    )

    found : Option CommentRow → Outcome CommentError CommentRow × ThreadStore
    found none = (err CommentError.comment_not_found, s)
    found (some row) =
        if not (row.wallet_address == wallet)
        then (err CommentError.comment_not_found, s)
        else if row.is_deleted
        then (ok row, s)
        else counted row
            (add_replies (pos 0 -ℤ pos 1) row.parent_id (put s.comments id (mark_deleted now row)))

-- `commentGeneration`
unfoldable pub comment_generation : ℕ → ThreadStore → ℕ × ThreadStore
comment_generation token s =
    let cached = get_generation token s.cache in
    if leb 1 cached then (cached, s) else persisted (find s.generations token)
  where
    persisted : Option ℕ → ℕ × ThreadStore
    persisted none = (0, s)
    persisted (some generation) =
        (generation, record s { cache = apply_generation token generation s.cache })
