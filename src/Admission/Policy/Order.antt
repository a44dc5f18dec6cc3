-- ===== src/Admission/Policy/Order.antt =====
-- The test by coverage forgets the order of the rules.
use mathlib.Core.List.{Permᴰ, Perm}
use mathlib.Core.Logic.{∥∥₁_elim}
use swift_cidr_admission.Base.{◌≡◌, refl, sym, ap, ◌∙◌, Bool, List, any, arith}
use swift_cidr_admission.Admission.Cidr.{Cidr, IsLawful, AnyIpAddress}
use swift_cidr_admission.Admission.Rules.{AdmissionRule, contains}
use swift_cidr_admission.Admission.Policy.{
  AdmissionAction, index_of_rules, index_contains, policy_of_rules, allows,
}
use swift_cidr_admission.Admission.Policy.Agreement.{index_contains-index_of_rules}

any-Permᴰ : {A : Type 0} (p : A → Bool) {xs ys : List A} → Permᴰ xs ys → any p xs ≡ any p ys
any-Permᴰ p Permᴰ.nil = refl
any-Permᴰ p (Permᴰ.cons e h) = ground (arith, ap p e, any-Permᴰ p h)
any-Permᴰ p (Permᴰ.swap e f) = ground (arith, ap p e, ap p f)
any-Permᴰ p (Permᴰ.trans h k) = any-Permᴰ p h ∙ any-Permᴰ p k

any-Perm : {A : Type 0} (p : A → Bool) {xs ys : List A} → Perm xs ys → any p xs ≡ any p ys
any-Perm p h = ∥∥₁_elim h (hlevel) (λ d. any-Permᴰ p d)

module _ (c : Cidr) (lawful : IsLawful c) where
  index-Perm :
      (rules others : List (AdmissionRule c)) (a : AnyIpAddress c)
      → Perm rules others
      → index_contains c (index_of_rules c rules) a ≡ index_contains c (index_of_rules c others) a
  index-Perm rules others a h =
      index_contains-index_of_rules c lawful rules a
      ∙ (any-Perm (λ rule. contains c rule a) h
          ∙ sym (index_contains-index_of_rules c lawful others a))

  -- Under the families' laws, policies whose allow rules and deny rules are the same up to order allow the same addresses.
  pub allows-Perm :
      (allow_rules allow_others deny_rules deny_others : List (AdmissionRule c))
      (default : AdmissionAction) (a : AnyIpAddress c)
      → Perm allow_rules allow_others
      → Perm deny_rules deny_others
      → allows c (policy_of_rules c allow_rules deny_rules default) a
        ≡ allows c (policy_of_rules c allow_others deny_others default) a
  unfolding allows policy_of_rules
  allows-Perm allow_rules allow_others deny_rules deny_others default a h k =
      ground (arith, index-Perm allow_rules allow_others a h, index-Perm deny_rules deny_others a k)
