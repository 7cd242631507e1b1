-- ===== src/HashMap/Laws.antt =====
-- What a lookup finds after an insertion and after a removal.
use scpy.Prelude.{
  ◌≡◌, refl, ◌∙◌, Text, text_eq, text_eq_iff, text_eq_refl, none, some, [], ◌∷◌, arith,
  if◌then◌else◌,
}
use scpy.HashMap.{HashMap, lookup, insert, remove}

module _ {ℓ} {V : Type ℓ} where
  pub lookup-insert :
      (k j : Text) (v : V) (m : HashMap V)
      → lookup j (insert k v m) ≡ (if text_eq k j then some v else lookup j m)
  unfolding lookup insert
  lookup-insert k j v [] = refl
  lookup-insert k j v ((i, w) ∷ m) =
      ground (arith, text_eq_iff k j, text_eq_iff i k, text_eq_iff i j, lookup-insert k j v m)

  pub lookup-remove :
      (k j : Text) (m : HashMap V)
      → lookup j (remove k m) ≡ (if text_eq k j then none else lookup j m)
  unfolding lookup remove
  lookup-remove k j [] = ground arith
  lookup-remove k j ((i, w) ∷ m) =
      ground (arith, text_eq_iff k j, text_eq_iff i k, text_eq_iff i j, lookup-remove k j m)

  pub lookup-insert_self : (k : Text) (v : V) (m : HashMap V) → lookup k (insert k v m) ≡ some v
  lookup-insert_self k v m = lookup-insert k k v m ∙ rw (text_eq_refl k) refl

  pub lookup-remove_self : (k : Text) (m : HashMap V) → lookup k (remove k m) ≡ none
  lookup-remove_self k m = lookup-remove k k m ∙ rw (text_eq_refl k) refl
