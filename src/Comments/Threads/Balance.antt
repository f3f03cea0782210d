-- ===== src/Comments/Threads/Balance.antt =====
-- Reply counts that agree with the replies, through the two updates of a write or a deletion.
use spawn_backend.Prelude.{
  ℕ, ◌+◌, ◌≡◌, ◌∙◌, refl, sym, ap, ◌==◌, false, if◌then◌else◌, Option, none, some, inl, inr,
  Bool-cases, Option-cases, arith,
}
use spawn_backend.Prelude.Int.{ℤ, pos, ◌+ℤ◌, ◌-ℤ◌, int_laws}
use spawn_backend.Common.Dict.{Dict, find, put, find-put, find-put_other}
use spawn_backend.Common.Dict.Weights.{weigh, weigh-put_new, weigh-put_old}
use spawn_backend.Comments.Threads.{
  CommentRow, CommentInput, add_replies, new_comment, mark_deleted,
}

unfoldable pub points : ℕ → Option ℕ → ℕ
points id none = 0
points id (some parent) = if parent == id then 1 else 0

-- One where the row is a reply to the comment and not deleted.
unfoldable pub is_live_reply : ℕ → CommentRow → ℕ
is_live_reply id row = if row.is_deleted then 0 else points id row.parent_id

-- The replies to a comment that are not deleted.
unfoldable pub live_replies : ℕ → Dict CommentRow → ℕ
live_replies id comments = weigh (is_live_reply id) comments

unfoldable pub reply_count_of : Option CommentRow → ℤ
reply_count_of none = pos 0
reply_count_of (some row) = row.reply_count

-- Every count of replies is the number of the replies that are not deleted, where a comment that is
-- missing has none, and every comment is its own root at depth 0.
unfoldable pub IsThreaded : Dict CommentRow → Type 0
IsThreaded comments =
    (id : ℕ)
    → (reply_count_of (find comments id) ≡ pos (live_replies id comments))
      × ((row : CommentRow) → find comments id ≡ some row → (row.depth ≡ 0) × (row.root_id ≡ id))

-- What the count of `q` lacks, where the parent's count is still to change.
unfoldable pub owing : ℤ → ℕ → Option ℕ → ℤ
owing by q none = pos 0
owing by q (some parent) = if parent == q then by else pos 0

-- Threaded, once the parent's count changes.
unfoldable pub Owes : ℤ → Option ℕ → Dict CommentRow → Type 0
Owes by parent comments =
    (id : ℕ)
    → (reply_count_of (find comments id) +ℤ owing by id parent ≡ pos (live_replies id comments))
      × ((row : CommentRow) → find comments id ≡ some row → (row.depth ≡ 0) × (row.root_id ≡ id))

owing_more : (q live : ℕ) (o : Option ℕ) → pos live +ℤ owing (pos 1) q o ≡ pos (live + points q o)
unfolding owing points
owing_more q live none = omega int_laws
owing_more q live (some p) = elim (Bool-cases (p == q)) [
  | inl same ↦ rw same (omega int_laws)
  | inr other ↦ rw other (omega int_laws)
]

owing_less :
    (q live : ℕ) (o : Option ℕ) → pos (live + points q o) +ℤ owing (pos 0 -ℤ pos 1) q o ≡ pos live
unfolding owing points
owing_less q live none = omega int_laws
owing_less q live (some p) = elim (Bool-cases (p == q)) [
  | inl same ↦ rw same (omega int_laws)
  | inr other ↦ rw other (omega int_laws)
]

pub insert-Owes :
    (token wallet id : ℕ) (input : CommentInput) (comments : Dict CommentRow)
    → find comments id ≡ none
    → IsThreaded comments
    → Owes (pos 1) input.parent_comment_id (put comments id (new_comment token wallet id input))
unfolding IsThreaded Owes live_replies reply_count_of is_live_reply
insert-Owes token wallet id input comments missing threaded q =
    let new = new_comment token wallet id input in
    let parent = input.parent_comment_id in
    let (count, flat) = threaded q in
    let live = weigh-put_new (is_live_reply q) comments id new missing in
    let more = owing_more q (live_replies q comments) parent in
    elim (Bool-cases (id == q)) [
      | inl same ↦
          let e : id ≡ q = ground arith in
          let here : find (put comments id new) q ≡ some new =
            rw (sym e) (find-put comments id new) in
          let before : pos 0 ≡ pos (live_replies q comments) = rw (rw e at missing) at count in
          (
            rw (here, live) (rw (sym before) at more),
            λ row found. let r : new ≡ row = cc in rw (sym r) (refl, e),
          )
      | inr other ↦ rw (find-put_other comments id q new other, live) (rw count more, flat)
    ]

pub delete-Owes :
    (id now : ℕ) (old : CommentRow) (comments : Dict CommentRow)
    → find comments id ≡ some old
    → old.is_deleted ≡ false
    → IsThreaded comments
    → Owes (pos 0 -ℤ pos 1) old.parent_id (put comments id (mark_deleted now old))
unfolding IsThreaded Owes live_replies reply_count_of is_live_reply
delete-Owes id now old comments there alive threaded q =
    let new = mark_deleted now old in
    let (count, flat) = threaded q in
    let live : weigh (is_live_reply q) (put comments id new) + points q old.parent_id
        ≡ weigh (is_live_reply q) comments =
      omega (arith, rw alive at (weigh-put_old (is_live_reply q) comments id old new there)) in
    let less = owing_less q (live_replies q (put comments id new)) old.parent_id in
    let still = rw live at less in
    elim (Bool-cases (id == q)) [
      | inl same ↦
          let e : id ≡ q = ground arith in
          let here : find (put comments id new) q ≡ some new =
            rw (sym e) (find-put comments id new) in
          let there' : find comments q ≡ some old = rw (sym e) there in
          let counted : old.reply_count ≡ pos (live_replies q comments) = rw there' at count in
          (
            rw here (ap (λ c. c +ℤ owing (pos 0 -ℤ pos 1) q old.parent_id) counted ∙ still),
            λ row found. let r : new ≡ row = cc in rw (sym r) (flat old there'),
          )
      | inr other ↦ rw (find-put_other comments id q new other) (rw count still, flat)
    ]

add_nothing : (n : ℤ) → n +ℤ pos 0 ≡ n
add_nothing n = omega int_laws

-- The parent's count changes, and all is even.
pub add_replies-IsThreaded :
    (by : ℤ) (parent : Option ℕ) (comments after : Dict CommentRow)
    → add_replies by parent comments ≡ some after
    → Owes by parent comments
    → IsThreaded after
unfolding add_replies IsThreaded Owes owing live_replies reply_count_of is_live_reply
add_replies-IsThreaded by none comments after done owes q =
    let same : comments ≡ after = cc in
    let (count, flat) = owes q in
    let here : reply_count_of (find comments q) ≡ pos (live_replies q comments) =
      sym (add_nothing (reply_count_of (find comments q))) ∙ count in
    rw (sym same) (here, flat)
add_replies-IsThreaded by (some p) comments after done owes q =
    elim (Option-cases (find comments p)) [
      | inl missing ↦ (let h = rw missing at done in cc)
      | inr (row, there) ↦
          let new : CommentRow = record row { reply_count = row.reply_count +ℤ by } in
          let h : some (put comments p new) ≡ some after = rw there at done in
          let same : put comments p new ≡ after = cc in
          let live : weigh (is_live_reply q) (put comments p new)
              ≡ weigh (is_live_reply q) comments =
            omega (arith, weigh-put_old (is_live_reply q) comments p row new there) in
          let (count, flat) = owes q in
          rw (sym same) (elim (Bool-cases (p == q)) [
            | inl one ↦
                let e : p ≡ q = ground arith in
                let here : find (put comments p new) q ≡ some new =
                  rw (sym e) (find-put comments p new) in
                let there' : find comments q ≡ some row = rw (sym e) there in
                (
                  rw (here, live) (rw (there', one) at count),
                  λ r found. let r' : new ≡ r = cc in rw (sym r') (flat row there'),
                )
            | inr other ↦
                rw (find-put_other comments p q new other, live)
                  (sym (add_nothing (reply_count_of (find comments q))) ∙ rw other at count, flat)
          ])
    ]
