-- ===== src/Comments/Threads/Counts.antt =====
-- Reply counts through any sequence of writes and deletions.
use spawn_backend.Prelude.{ℕ, refl, ◌==◌, List, [], ◌∷◌, inl, inr, Bool-cases, Option-cases}
use spawn_backend.Prelude.Int.{pos, ◌-ℤ◌}
use spawn_backend.Common.Dict.{find, put}
use spawn_backend.Common.Dict.Weights.{weigh}
use spawn_backend.Comments.Threads.{
  ThreadStore, CommentInput, add_replies, new_comment, mark_deleted, write_comment, delete_comment,
  advance_generation, insert_comment, check_parent, find_request,
}
use spawn_backend.Comments.Threads.Balance.{
  IsThreaded, live_replies, reply_count_of, insert-Owes, delete-Owes, add_replies-IsThreaded,
}

-- What clients do, in the order in which the transactions commit.
pub data Command : Type 0 where
  writes : ℕ → ℕ → ℕ → ℕ → ℕ → CommentInput → Command
  deletes : ℕ → ℕ → ℕ → Command

unfoldable pub perform : Command → ThreadStore → ThreadStore
perform (Command.writes token wallet key hash id input) s =
    (write_comment token wallet key hash id input s).1
perform (Command.deletes id wallet now) s = (delete_comment id wallet now s).1

unfoldable pub perform_all : List Command → ThreadStore → ThreadStore
perform_all [] s = s
perform_all (c ∷ cs) s = perform_all cs (perform c s)

abbrev pub no_comments : ThreadStore
no_comments = record {
  comments = [];
  requests = [];
  profiles = [];
  generations = [];
  outbox = [];
  cache = [];
}

write_comment-IsThreaded :
    (token wallet key hash id : ℕ) (input : CommentInput) (s : ThreadStore)
    → IsThreaded s.comments
    → IsThreaded (write_comment token wallet key hash id input s).1.comments
unfolding write_comment insert_comment advance_generation
write_comment-IsThreaded token wallet key hash id input s threaded =
    elim (Option-cases (find_request wallet key s.requests)) [
      | inr (r, raced) ↦ rw raced threaded
      | inl free ↦ elim (Option-cases (check_parent token input.parent_comment_id s.comments)) [
        | inr (e, refused) ↦ rw (free, refused) threaded
        | inl passed ↦ elim (Option-cases (find s.comments id)) [
          | inr (c, taken) ↦ rw (free, passed, taken) threaded
          | inl new ↦
              let inserted = put s.comments id (new_comment token wallet id input) in
              elim (Option-cases (add_replies (pos 1) input.parent_comment_id inserted)) [
                | inl missing ↦ rw (free, passed, new, missing) threaded
                | inr (after, done) ↦
                    rw (free, passed, new, done)
                      (add_replies-IsThreaded (pos 1) input.parent_comment_id inserted after done
                        (insert-Owes token wallet id input s.comments new threaded))
              ]
        ]
      ]
    ]

delete_comment-IsThreaded :
    (id wallet now : ℕ) (s : ThreadStore)
    → IsThreaded s.comments
    → IsThreaded (delete_comment id wallet now s).1.comments
unfolding delete_comment advance_generation
delete_comment-IsThreaded id wallet now s threaded = elim (Option-cases (find s.comments id)) [
  | inl missing ↦ rw missing threaded
  | inr (row, there) ↦ elim (Bool-cases (row.wallet_address == wallet)) [
    | inr stranger ↦ rw (there, stranger) threaded
    | inl author ↦ elim (Bool-cases row.is_deleted) [
      | inl gone ↦ rw (there, author, gone) threaded
      | inr alive ↦
          let less = pos 0 -ℤ pos 1 in
          let marked = put s.comments id (mark_deleted now row) in
          elim (Option-cases (add_replies less row.parent_id marked)) [
            | inl missing ↦ rw (there, author, alive, missing) threaded
            | inr (after, done) ↦
                rw (there, author, alive, done)
                  (add_replies-IsThreaded less row.parent_id marked after done
                    (delete-Owes id now row s.comments there alive threaded))
          ]
    ]
  ]
]

perform_all_from :
    (cs : List Command) (s : ThreadStore)
    → IsThreaded s.comments
    → IsThreaded (perform_all cs s).comments
unfolding perform_all perform
perform_all_from [] s threaded = threaded
perform_all_from (Command.writes token wallet key hash id input ∷ cs) s threaded =
    perform_all_from cs _ (write_comment-IsThreaded token wallet key hash id input s threaded)
perform_all_from (Command.deletes id wallet now ∷ cs) s threaded =
    perform_all_from cs _ (delete_comment-IsThreaded id wallet now s threaded)

-- After any sequence of transactions of `create` and `delete` on empty tables, with any tokens,
-- wallets, keys, bodies and identifiers: every comment's count of replies is the number of its replies
-- that are not deleted (no reply that is not deleted refers to a missing comment), and every comment,
-- replies included, is its own root at depth 0.
pub perform_all-IsThreaded : (cs : List Command) → IsThreaded (perform_all cs no_comments).comments
unfolding IsThreaded find live_replies weigh reply_count_of
perform_all-IsThreaded cs = perform_all_from cs no_comments (λ id. (refl, λ row e. cc))
