-- ===== src/Base/Permutations.antt =====
-- Rearranging the parts of a list that is made of parts.
use mathlib.Core.Path.{subst}
use mathlib.Core.List.{
  List, [], ◌∷◌, ◌++◌, append-nil, append_assoc, Perm, perm_middle, perm_append_comm, Nodup,
}
use mathlib.Core.List.Perm
use mathlib.Core.List.Nodup

module _ {ℓ} {A : Type ℓ} where
  pub move_to_front : (x : A) (xs ys : List A) → Perm (xs ++ (ys ++ x ∷ [])) (x ∷ xs ++ ys)
  move_to_front x xs ys = rw (← append_assoc xs ys (x ∷ [])) (
      subst (λ zs. Perm ((xs ++ ys) ++ x ∷ []) (x ∷ zs)) (append-nil (xs ++ ys))
        (perm_middle (xs ++ ys) []))

  pub pull_out : (xs ys zs ws : List A) → Perm ((xs ++ (ys ++ zs)) ++ ws) ((xs ++ zs) ++ (ys ++ ws))
  pull_out xs ys zs ws =
      rw (append_assoc xs (ys ++ zs) ws, append_assoc xs zs (ys ++ ws), ← append_assoc zs ys ws)
        (Perm.append_left xs (Perm.append_right ws (perm_append_comm ys zs)))

  pub swap_middle :
      (xs ys zs ws : List A) → Perm ((xs ++ ys) ++ (zs ++ ws)) ((xs ++ zs) ++ (ys ++ ws))
  swap_middle xs ys zs ws =
      rw (← append_assoc (xs ++ ys) zs ws, append_assoc xs ys zs) (pull_out xs ys zs ws)

  -- The members of a list are, as often, members of another.
  abbrev pub Within : List A → List A → Type ℓ
  Within xs ys = (others : List A) × Perm (others ++ xs) ys

  pub Within-of_perm : {xs ys : List A} → Perm xs ys → Within xs ys
  Within-of_perm p = ([], p)

  pub Within-refl : (xs : List A) → Within xs xs
  Within-refl xs = ([], Perm.refl xs)

  pub Within-right : (xs ys : List A) → Within ys (xs ++ ys)
  Within-right xs ys = (xs, Perm.refl (xs ++ ys))

  pub Within-trans : {xs ys zs : List A} → Within xs ys → Within ys zs → Within xs zs
  Within-trans {xs} (others, p) (more, q) =
      (more ++ others, rw (append_assoc more others xs) (Perm.trans (Perm.append_left more p) q))

  pub Within-append :
      {xs ys zs ws : List A} → Within xs ys → Within zs ws → Within (xs ++ zs) (ys ++ ws)
  Within-append {xs} {zs = zs} (others, p) (more, q) =
      (others ++ more, Perm.trans (swap_middle others more xs zs) (Perm.append p q))

  pub Within-cons : (x : A) {xs ys : List A} → Within xs ys → Within (x ∷ xs) (x ∷ ys)
  Within-cons x w = Within-append (Within-refl (x ∷ [])) w

  pub Within-Nodup : {xs ys : List A} → Within xs ys → Nodup ys → Nodup xs
  Within-Nodup (others, p) h = Nodup.of_append_right others (Perm.nodup (Perm.symm p) h)
