-- ===== src/Comments/Likes/Counts.antt =====
-- The count of a comment is the number of its likes.
use spawn_backend.Prelude.{
  ℕ, ◌+◌, ◌≡◌, refl, sym, ◌∙◌, true, false, ◌==◌, if◌then◌else◌, List, [], ◌∷◌, some, inl, inr,
  Bool-cases, Option-cases, arith,
}
use spawn_backend.Prelude.Int.{pos, ◌+ℤ◌, ◌-ℤ◌, int_laws}
use spawn_backend.Common.Dict.{find, put, find-put, find-put_other}
use spawn_backend.Comments.Likes.{
  Comment, Like, Rows, is_like, has_like, delete_likes, like_found, like, unlike_found, unlike,
}

-- The likes of a comment.
unfoldable pub likes_of : ℕ → List Like → ℕ
likes_of comment_id [] = 0
likes_of comment_id (l ∷ ls) =
    (if l.comment_id == comment_id then 1 else 0) + likes_of comment_id ls

-- No wallet likes a comment twice: the table's primary key.
unfoldable pub IsUnique : List Like → Type 0
IsUnique [] = Unit
IsUnique (l ∷ ls) = (has_like l.comment_id l.wallet_address ls ≡ false) × IsUnique ls

pub record IsConsistent (s : Rows) : Type 0 where
  pub unique : IsUnique s.likes
  pub counts :
      (id : ℕ) (c : Comment)
      → find s.comments id ≡ some c
      → c.like_count ≡ pos (likes_of id s.likes)

likes_of-delete_likes_other :
    (id comment wallet : ℕ) (ls : List Like)
    → (comment == id) ≡ false
    → likes_of id (delete_likes comment wallet ls) ≡ likes_of id ls
unfolding likes_of delete_likes
likes_of-delete_likes_other id comment wallet [] ne = refl
likes_of-delete_likes_other id comment wallet (l ∷ ls) ne =
    ground (arith, likes_of-delete_likes_other id comment wallet ls ne)

delete_likes_none :
    (comment wallet : ℕ) (ls : List Like)
    → has_like comment wallet ls ≡ false
    → delete_likes comment wallet ls ≡ ls
unfolding has_like delete_likes
delete_likes_none comment wallet [] h = refl
delete_likes_none comment wallet (l ∷ ls) h = elim (Bool-cases (is_like comment wallet l)) [
  | inl this ↦ (let h' = rw this at h in cc)
  | inr other ↦ rw (other, delete_likes_none comment wallet ls (rw other at h)) refl
]

-- A unique like, once removed, is one like less.
likes_of-delete_likes :
    (comment wallet : ℕ) (ls : List Like)
    → IsUnique ls
    → has_like comment wallet ls ≡ true
    → likes_of comment (delete_likes comment wallet ls) + 1 ≡ likes_of comment ls
unfolding likes_of delete_likes has_like IsUnique
likes_of-delete_likes comment wallet [] u h = cc
likes_of-delete_likes comment wallet (l ∷ ls) (new, u) h =
    elim (Bool-cases (is_like comment wallet l)) [
      | inl this ↦
          let at : l.comment_id ≡ comment = ground arith in
          let by : l.wallet_address ≡ wallet = ground arith in
          let rest : has_like comment wallet ls ≡ false = rw (sym at, sym by) new in
          let one : (l.comment_id == comment) ≡ true = ground arith in
          rw (this, delete_likes_none comment wallet ls rest, one) (omega arith)
      | inr other ↦
          rw other (omega (arith, likes_of-delete_likes comment wallet ls u (rw other at h)))
    ]

has_like-delete_likes :
    (a b comment wallet : ℕ) (ls : List Like)
    → has_like a b ls ≡ false
    → has_like a b (delete_likes comment wallet ls) ≡ false
unfolding has_like delete_likes
has_like-delete_likes a b comment wallet [] h = refl
has_like-delete_likes a b comment wallet (l ∷ ls) h = elim (Bool-cases (is_like a b l)) [
  | inl this ↦ (let h' = rw this at h in cc)
  | inr other ↦
      let ih = has_like-delete_likes a b comment wallet ls (rw other at h) in
      elim (Bool-cases (is_like comment wallet l)) [
        | inl gone ↦ rw gone ih
        | inr stays ↦ rw (stays, other) ih
      ]
]

delete_likes-IsUnique :
    (comment wallet : ℕ) (ls : List Like) → IsUnique ls → IsUnique (delete_likes comment wallet ls)
unfolding IsUnique delete_likes
delete_likes-IsUnique comment wallet [] u = tt
delete_likes-IsUnique comment wallet (l ∷ ls) (new, u) =
    elim (Bool-cases (is_like comment wallet l)) [
      | inl gone ↦ rw gone (delete_likes-IsUnique comment wallet ls u)
      | inr stays ↦ rw stays (
        has_like-delete_likes l.comment_id l.wallet_address comment wallet ls new,
        delete_likes-IsUnique comment wallet ls u,
      )
    ]

-- After a comment's count and likes change together, the counts agree.
counts_after :
    (s : Rows) (id : ℕ) (c c' : Comment) (ls : List Like)
    → IsConsistent s
    → find s.comments id ≡ some c
    → c'.like_count ≡ pos (likes_of id ls)
    → ((other : ℕ) → (id == other) ≡ false → likes_of other ls ≡ likes_of other s.likes)
    → (other : ℕ) (d : Comment) → find (put s.comments id c') other ≡ some d
    → d.like_count ≡ pos (likes_of other ls)
counts_after s id c c' ls k found here there other d e = elim (Bool-cases (id == other)) [
  | inl same ↦
      let at : id ≡ other = ground arith in
      let e' : some c' ≡ some d = sym (find-put s.comments id c') ∙ rw (sym at) at e in
      let eq : c' ≡ d = cc in rw (sym eq, sym at) here
  | inr ne ↦
      rw (there other ne) (k.counts other d (sym (find-put_other s.comments id other c' ne) ∙ e))
]

-- A like keeps the counts, whatever it answers.
like-IsConsistent : (id wallet : ℕ) (s : Rows) → IsConsistent s → IsConsistent (like id wallet s).1
unfolding like like_found IsUnique likes_of
like-IsConsistent id wallet s k = elim (Option-cases (find s.comments id)) [
  | inl missing ↦ rw missing k
  | inr (c, found) ↦ elim (Bool-cases c.is_deleted) [
    | inl gone ↦ rw (found, gone) k
    | inr alive ↦ elim (Bool-cases (has_like id wallet s.likes)) [
      | inl already ↦ rw (found, alive, already) k
      | inr new ↦
          let self : (id == id) ≡ true = ground arith in
          let more : c.like_count +ℤ pos 1
              ≡ pos ((if id == id then 1 else 0) + likes_of id s.likes) =
            rw (k.counts id c found, self) (omega int_laws) in
          rw (found, alive, new)
            (record {
              unique = (new, k.unique);
              counts =
                  counts_after s id c _
                    (record { comment_id = id; wallet_address = wallet } ∷ s.likes) k found more
                    (λ other ne. rw ne (omega arith));
            })
    ]
  ]
]

-- So does a like that is taken back.
unlike-IsConsistent :
    (id wallet : ℕ) (s : Rows) → IsConsistent s → IsConsistent (unlike id wallet s).1
unfolding unlike unlike_found
unlike-IsConsistent id wallet s k = elim (Option-cases (find s.comments id)) [
  | inl missing ↦ rw missing k
  | inr (c, found) ↦ elim (Bool-cases (has_like id wallet s.likes)) [
    | inr absent ↦ rw (found, absent) k
    | inl there ↦
        let less : c.like_count -ℤ pos 1 ≡ pos (likes_of id (delete_likes id wallet s.likes)) =
          rw (k.counts id c found, sym (likes_of-delete_likes id wallet s.likes k.unique there))
            (omega int_laws) in
        rw (found, there)
          (record {
            unique = delete_likes-IsUnique id wallet s.likes k.unique;
            counts =
                counts_after s id c _ (delete_likes id wallet s.likes) k found less
                  (λ other ne. likes_of-delete_likes_other other id wallet s.likes ne);
          })
  ]
]

-- What wallets do to comments, in the order in which the transactions commit.
pub data LikeAction : Type 0 where
  likes_comment : ℕ → ℕ → LikeAction
  unlikes_comment : ℕ → ℕ → LikeAction

unfoldable pub perform_likes : List LikeAction → Rows → Rows
perform_likes [] s = s
perform_likes (LikeAction.likes_comment id wallet ∷ rest) s =
    perform_likes rest (like id wallet s).1
perform_likes (LikeAction.unlikes_comment id wallet ∷ rest) s =
    perform_likes rest (unlike id wallet s).1

-- If no wallet likes a comment twice and every comment's count is the number of its likes, both still
-- hold after any sequence of likes and of likes taken back, whatever the calls answer.
pub perform_likes-IsConsistent :
    (actions : List LikeAction) (s : Rows) → IsConsistent s → IsConsistent (perform_likes actions s)
unfolding perform_likes
perform_likes-IsConsistent [] s k = k
perform_likes-IsConsistent (LikeAction.likes_comment id wallet ∷ rest) s k =
    perform_likes-IsConsistent rest (like id wallet s).1 (like-IsConsistent id wallet s k)
perform_likes-IsConsistent (LikeAction.unlikes_comment id wallet ∷ rest) s k =
    perform_likes-IsConsistent rest (unlike id wallet s).1 (unlike-IsConsistent id wallet s k)
