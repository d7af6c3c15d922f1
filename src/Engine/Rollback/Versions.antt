-- ===== src/Engine/Rollback/Versions.antt =====
-- What the comparison of versions keeps of an order.
use dev_ops_pipeline_orchest.Prelude.{
  List, [], arith, false, none, refl, some, true, ◌∷◌, ◌≡◌, ◌⊎◌, string_eq, nat_eq,
}
use dev_ops_pipeline_orchest.Engine.Rollback.{
  Text, VersionPart, part_less, parts_less, split_version, text_eq, text_less, version_less,
}

text_less_asym : (a b : Text) → text_less a b ≡ true → text_less b a ≡ false
unfolding text_less
text_less_asym [] [] h = refl
text_less_asym [] (d ∷ b) h = refl
text_less_asym (c ∷ a) [] h = absurd (ground arith)
text_less_asym (c ∷ a) (d ∷ b) h = ground (arith, text_less_asym a b)

text_eq_sym : (a b : Text) → text_eq a b ≡ text_eq b a
unfolding text_eq
text_eq_sym [] [] = refl
text_eq_sym [] (d ∷ b) = refl
text_eq_sym (c ∷ a) [] = refl
text_eq_sym (c ∷ a) (d ∷ b) = ground (arith, text_eq_sym a b)

-- One round decides both ways, or in neither way.
part_less_asym :
    (a b : VersionPart)
    → ((part_less a b ≡ none) × (part_less b a ≡ none))
      ⊎ ((part_less b a ≡ some false) ⊎ (part_less a b ≡ some false))
unfolding part_less
part_less_asym a b = ground (arith, text_eq_sym a.text b.text, text_less_asym a.text b.text)

parts_less_asym : (as' bs : List VersionPart) → parts_less as' bs ≡ true → parts_less bs as' ≡ false
unfolding parts_less
parts_less_asym [] [] h = refl
parts_less_asym [] (b ∷ bs) h = refl
parts_less_asym (a ∷ as') [] h = absurd (ground arith)
parts_less_asym (a ∷ as') (b ∷ bs) h = ground (arith, part_less_asym a b, parts_less_asym as' bs)

-- No two versions are both before one another, and no version is before itself.
pub version_less_asym :
    (a b : Text) → (version_less a b ≡ true → version_less b a ≡ false) × (version_less a a ≡ false)
unfolding version_less
version_less_asym a b = (
  λ h. ground (arith, text_eq_sym a b, parts_less_asym (split_version a) (split_version b)),
  ground (arith, parts_less_asym (split_version a) (split_version a)),
)
