-- ===== src/Infrastructure/Cache/Generations.antt =====
-- The script keeps the greatest generation.
use spawn_backend.Prelude.{
  ℕ, ◌≡◌, ◌⊎◌, ◌∙◌, sym, ap, max, false, ltb, ◌==◌, Option, none, some, inl, inr, Bool-cases, arith,
}
use spawn_backend.Common.Decimal.{Text, to_text, value_from}
use spawn_backend.Common.Decimal.Laws.{value-to_text}
use spawn_backend.Common.Dict.{find, find-put, find-put_other}
use spawn_backend.Infrastructure.Cache.{
  Generations, apply_script, apply_generation, generation_of, get_generation,
}
use spawn_backend.Infrastructure.Cache.Decimal.{is_newer-eq-ltb}

-- Every value in Redis is the text of a number.
unfoldable pub IsReadable : Generations → Type 0
IsReadable g =
    (domain : ℕ) → (find g domain ≡ none) ⊎ ((n : ℕ) × (find g domain ≡ some (to_text n)))

script_max :
    (b : ℕ) (o : Option Text)
    → (o ≡ none) ⊎ ((n : ℕ) × (o ≡ some (to_text n)))
    → apply_script (to_text b) o ≡ to_text (max (generation_of o) b)
unfolding apply_script generation_of
script_max b o (inl missing) = rw missing (ap to_text (omega arith))
script_max b o (inr (a, there)) =
    rw (there, is_newer-eq-ltb b a, value-to_text a)
      (elim (Bool-cases (ltb a b)) [
        | inl h ↦ rw h (ap to_text (ground arith))
        | inr h ↦ rw h (ap to_text (ground arith))
      ])

-- On texts of numbers the call does what `max` does on numbers: the domain's generation becomes the
-- greater of the one it had, or 0, and the one applied; the other domains keep theirs; and all values
-- are texts of numbers again.
pub apply_generation-refines :
    (domain generation : ℕ) (g : Generations)
    → IsReadable g
    → IsReadable (apply_generation domain generation g)
      × (get_generation domain (apply_generation domain generation g)
          ≡ max (get_generation domain g) generation)
      × ((other : ℕ)
          → (domain == other) ≡ false
          → get_generation other (apply_generation domain generation g) ≡ get_generation other g)
unfolding apply_generation get_generation IsReadable generation_of value_from
apply_generation-refines domain generation g readable =
    let value = apply_script (to_text generation) (find g domain) in
    let s = script_max generation (find g domain) (readable domain) in
    (
      λ d. elim (Bool-cases (domain == d)) [
        | inl same ↦
            let at : domain ≡ d = ground arith in
            inr (
              max (generation_of (find g domain)) generation,
              rw (sym at) (find-put g domain value ∙ ap some s),
            )
        | inr other ↦ rw (find-put_other g domain d value other) (readable d)
      ],
      rw (find-put g domain value, s)
          (value-to_text (max (generation_of (find g domain)) generation)),
      λ d other. ap generation_of (find-put_other g domain d value other),
    )
