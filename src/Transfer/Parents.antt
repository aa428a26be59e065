-- ===== src/Transfer/Parents.antt =====
-- What the comparison of the parents tells.
use gdom.Base.{
  ◌≡◌, refl, sym, subst, String, List, [], ◌∷◌, true, Bool-cases, inl, inr, eq_iff, arith,
}
use mathlib.Core.List.{Perm}
use mathlib.Core.List.Perm
use gdom.Transfer.Steps.{text_le, insert_text, sort_texts, texts_eq, same_parents}

insert_text-Perm : (s : String) (ts : List String) → Perm (insert_text s ts) (s ∷ ts)
unfolding insert_text
insert_text-Perm s [] = Perm.refl (s ∷ [])
insert_text-Perm s (t ∷ ts) = elim (Bool-cases (text_le s t)) [
  | inl first ↦ rw first (Perm.refl (s ∷ (t ∷ ts)))
  | inr later ↦ rw later (Perm.trans (Perm.cons t (insert_text-Perm s ts)) (Perm.swap s t ts))
]

sort_texts-Perm : (ts : List String) → Perm (sort_texts ts) ts
unfolding sort_texts
sort_texts-Perm [] = Perm.refl []
sort_texts-Perm (s ∷ ss) =
    Perm.trans (insert_text-Perm s (sort_texts ss)) (Perm.cons s (sort_texts-Perm ss))

texts_eq-eq : (ss ts : List String) → texts_eq ss ts ≡ true → ss ≡ ts
unfolding texts_eq
texts_eq-eq [] [] h = refl
texts_eq-eq [] (t ∷ ts) h = cc
texts_eq-eq (s ∷ ss) [] h = cc
texts_eq-eq (s ∷ ss) (t ∷ ts) h = ground (arith, eq_iff s t, texts_eq-eq ss ts)

-- If the parents of an item count as the same, Drive lists the very parents that the item had, each as
-- often, in whatever order: a verified item was moved out of no folder and into none.
pub same_parents-Perm :
    (original remote : List String) → same_parents original remote ≡ true → Perm original remote
unfolding same_parents
same_parents-Perm original remote h = Perm.trans (Perm.symm (sort_texts-Perm original)) (
    subst (λ ts. Perm ts remote) (sym (texts_eq-eq (sort_texts original) (sort_texts remote) h))
      (sort_texts-Perm remote))
