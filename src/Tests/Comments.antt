-- ===== src/Tests/Comments.antt =====
-- A comment, two replies to it and the deletion of the first.
use spawn_backend.Prelude.{ℕ, List, [], ◌∷◌, Option, none, some}
use spawn_backend.Comments.Threads.{CommentInput}
use spawn_backend.Comments.Threads.Balance.{IsThreaded}
use spawn_backend.Comments.Threads.Counts.{
  Command, no_comments, perform_all, perform_all-IsThreaded,
}

abbrev text_of : Option ℕ → CommentInput
text_of parent = record {
  wallet_address = some 9;
  parent_comment_id = parent;
  text = b'h' ∷ b'i' ∷ [];
}

abbrev commands : List Command
commands =
    Command.writes 3 9 100 55 1 (text_of none)
    ∷ Command.writes 3 9 101 56 2 (text_of (some 1))
    ∷ Command.writes 3 8 100 57 4 (text_of (some 1))
    ∷ Command.deletes 2 9 1_700
    ∷ []

perform_all-IsThreaded_example : IsThreaded (perform_all commands no_comments).comments
perform_all-IsThreaded_example = perform_all-IsThreaded commands
