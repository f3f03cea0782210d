-- ===== src/Tokens/Listing/Search.antt =====
-- A search text stays a text: the condition on the name in `list` of
-- src/modules/tokens/token-query.service.ts, as the database reads it.
use mathlib.Core.List.{append_assoc, append-nil}
use spawn_backend.Prelude.{
  ℕ, ◌==◌, ◌≡◌, refl, ap, ◌∙◌, if◌then◌else◌, List, [], ◌∷◌, ◌++◌, map, inl, inr, Bool-cases, arith,
}
use spawn_backend.Common.Decimal.{Text}
use spawn_backend.Common.Texts.{codes}
use spawn_backend.Tokens.Listing.{escape_quotes, search_condition}

-- A statement to the database: the characters of its code, and its string literals.
pub data SqlPiece : Type 0 where
  code : ℕ → SqlPiece
  literal : Text → SqlPiece
  unterminated : SqlPiece

-- Where the reading stands: in the code, in a literal, or behind a quote in a literal.
pub data SqlMode : Type 0 where
  in_code : SqlMode
  in_literal behind_quote : Text → SqlMode

-- Standard strings: a literal ends at a quote that no other quote follows, and two quotes are one.
pub read_sql : SqlMode → Text → List SqlPiece
read_sql in_code [] = []
read_sql (in_literal value) [] = unterminated ∷ []
read_sql (behind_quote value) [] = literal value ∷ []
read_sql in_code (c ∷ cs) =
    let quoted = read_sql (in_literal []) cs in
    let rest = read_sql in_code cs in if c == b'\'' then quoted else code c ∷ rest
read_sql (in_literal value) (c ∷ cs) =
    let ended = read_sql (behind_quote value) cs in
    let rest = read_sql (in_literal (value ++ c ∷ [])) cs in if c == b'\'' then ended else rest
read_sql (behind_quote value) (c ∷ cs) =
    let rest = read_sql (in_literal (value ++ c ∷ [])) cs in
    let after = read_sql in_code cs in if c == b'\'' then rest else literal value ∷ code c ∷ after

-- An escaped text goes into the literal whole, and does not end it.
read_sql-escape_quotes :
    (value q rest : Text)
    → read_sql (in_literal value) (escape_quotes q ++ rest)
      ≡ read_sql (in_literal (value ++ q)) rest
unfolding read_sql escape_quotes
read_sql-escape_quotes value [] rest = rw (append-nil value) refl
read_sql-escape_quotes value (c ∷ q) rest =
    let ih = rw append_assoc at (read_sql-escape_quotes (value ++ c ∷ []) q rest) in
    elim (Bool-cases (c == b'\'')) [
      | inl quote ↦ let e : c ≡ b'\'' = ground arith in rw e (rw e at ih)
      | inr plain ↦ rw (plain, plain) ih
    ]

regrouped :
    (q rest : Text)
    → search_condition q ++ rest
      ≡ codes "(pm.name ILIKE '%"
        ++ (escape_quotes q
            ++ (codes "%' OR pm.symbol ILIKE '%" ++ (escape_quotes q ++ (codes "%')" ++ rest))))
unfolding search_condition
regrouped q rest =
    let head = codes "(pm.name ILIKE '%" in
    let tail = codes "%' OR pm.symbol ILIKE '%" in
    let e = escape_quotes q in
    append_assoc head (e ++ (tail ++ (e ++ codes "%')"))) rest
    ∙ ap (λ t. head ++ t)
        (append_assoc e (tail ++ (e ++ codes "%')")) rest
          ∙ ap (λ t. e ++ t)
              (append_assoc tail (e ++ codes "%')") rest
                ∙ ap (λ t. tail ++ t) (append_assoc e (codes "%')") rest)))

-- For every search text, whatever quotes it holds, the database reads the condition as the same code
-- around two literals, each the text between percent signs, and reads what follows as code.
pub read_sql-search_condition :
    (q rest : Text)
    → read_sql in_code (search_condition q ++ rest)
      ≡ map code (codes "(pm.name ILIKE ")
        ++ (literal (b'%' ∷ (q ++ b'%' ∷ []))
            ∷ (map code (codes " OR pm.symbol ILIKE ")
                ++ (literal (b'%' ∷ (q ++ b'%' ∷ [])) ∷ (code b')' ∷ read_sql in_code rest))))
unfolding read_sql
read_sql-search_condition q rest =
    let tail = codes "%' OR pm.symbol ILIKE '%" in
    let end = codes "%')" ++ rest in
    let start = map code (codes "(pm.name ILIKE ") in
    let middle = literal (b'%' ∷ (q ++ b'%' ∷ [])) ∷ map code (codes " OR pm.symbol ILIKE ") in
    ap (read_sql in_code) (regrouped q rest)
    ∙ (ap (λ pieces. start ++ pieces)
          (read_sql-escape_quotes (b'%' ∷ []) q (tail ++ (escape_quotes q ++ end)))
        ∙ ap (λ pieces. start ++ (middle ++ pieces)) (read_sql-escape_quotes (b'%' ∷ []) q end))
