-- ===== src/S1/Served.antt =====
-- mme/MME.c: which supported areas of an eNodeB the MME serves, apart from the loops that look for one.
use aalto_mme.Prelude.{
  ℕ, ◌≡◌, ◌⊎◌, ◌↔◌, refl, arith, Bool, true, false, ◌||◌, List, [], ◌∷◌, Bool-cases, inl, inr,
}
use aalto_mme.S1ap.Message.{SupportedTa}
use aalto_mme.Nas.Security.{same}
use aalto_mme.Nas.SecurityLaws.{same_sound, same_refl}
use aalto_mme.S1.Association.{is_served, is_served_by_any, any_served, contains_supported_tas}

-- One of the members of a list is as it is asked for.
unfoldable pub Some : {A : Type 0} → (A → Type 0) → List A → Type 0
Some P [] = ⊥
Some P (x ∷ xs) = P x ⊎ Some P xs

-- One of the areas has a network that is equal to one in one of the served lists.
abbrev pub IsServed : List (List (List ℕ)) → List SupportedTa → Type 0
IsServed served tas =
    Some (λ (t : SupportedTa). Some (λ (p : List ℕ). Some (Some (λ q. q ≡ p)) served) t.plmns) tas

-- A loop that goes on to the first member that passes a test.
loop-Some :
    {A : Type 0} (f : List A → Bool) (test : A → Bool) (P : A → Type 0)
    → f [] ≡ false
    → ((x : A) (xs : List A) → f (x ∷ xs) ≡ (test x || f xs))
    → ((x : A) → (test x ≡ true) ↔ P x)
    → (xs : List A) → (f xs ≡ true) ↔ Some P xs
unfolding Some
loop-Some f test P nothing next tests [] = (λ h. ground (arith, nothing, h), λ h. absurd h)
loop-Some f test P nothing next tests (x ∷ xs) =
    let (found, back) = loop-Some f test P nothing next tests xs in
    let (pass, passed) = tests x in
    (
      λ h. elim (Bool-cases (test x)) [
        | inl e ↦ inl (pass e)
        | inr e ↦ inr (found (ground (arith, next x xs, h, e)))
      ],
      λ h. elim h [
        | inl e ↦ let here : test x ≡ true = passed e in ground (arith, next x xs, here)
        | inr e ↦
            let there : f xs ≡ true = back e in
            ground (arith, next x xs, there, Bool-cases (test x))
      ],
    )

same-equal : (q p : List ℕ) → (same q p ≡ true) ↔ (q ≡ p)
same-equal q p = (same_sound q p, λ e. rw e (same_refl p))

-- The loops find an area that is served exactly if there is one.
pub contains_supported_tas-IsServed :
    (served : List (List (List ℕ))) (tas : List SupportedTa)
    → (contains_supported_tas served tas ≡ true) ↔ IsServed served tas
unfolding contains_supported_tas any_served is_served_by_any is_served
contains_supported_tas-IsServed served tas =
    loop-Some (contains_supported_tas served) (λ t. any_served served t.plmns) _ refl (λ t ts. refl)
      (λ t.
        loop-Some (any_served served) (is_served_by_any served) _ refl (λ p ps. refl)
          (λ p.
            loop-Some (λ ss. is_served_by_any ss p) (λ s. is_served s p) _ refl (λ s ss. refl)
              (λ s.
                loop-Some (λ qs. is_served qs p) (λ q. same q p) _ refl (λ q qs. refl)
                  (λ q. same-equal q p) s)
              served)
          t.plmns)
      tas
