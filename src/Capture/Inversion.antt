-- ===== src/Capture/Inversion.antt =====
-- What the success of an action in several steps tells of the steps.
use swift_cidr_admission.Base.{
  Bool, true, false, Text, ◌≡◌, ◌⊎◌, inl, inr, Error, refl, ap, ◌∙◌, Result, ok, err, arith,
}
use swift_cidr_admission.Capture.World.{World, Action, ◌>=>◌, ◌>->◌, resume, lift, affirm}

module _ {A B : Type 0} where
  resume_inversion :
      (r : Result A) (w1 : World) (next : A → Action B) {b : B} {w' : World}
      → resume r next w1 ≡ (ok b, w')
      → (a : A) × (r ≡ ok a) × (next a w1 ≡ (ok b, w'))
  resume_inversion (ok a) w1 next h = (a, refl, h)
  resume_inversion (err e) w1 next h = absurd (ground (arith, h))

  -- The first action succeeds, and the second after it.
  pub step_inversion :
      (first : Action A) (next : A → Action B) (w : World) {b : B} {w' : World}
      → (first >=> next) w ≡ (ok b, w')
      → (a : A) × (w1 : World) × (first w ≡ (ok a, w1)) × (next a w1 ≡ (ok b, w'))
  unfolding ◌>=>◌
  step_inversion first next w h =
      let (a, e, k) = resume_inversion (first w).0 (first w).1 next h in
      (a, (first w).1, ap (λ r. (r, (first w).1)) e, k)

  pub then_inversion :
      (first : Action A) (next : Action B) (w : World) {b : B} {w' : World}
      → (first >-> next) w ≡ (ok b, w')
      → (a : A) × (w1 : World) × (first w ≡ (ok a, w1)) × (next w1 ≡ (ok b, w'))
  unfolding ◌>->◌
  then_inversion first next w h =
      let (a, e, k) = resume_inversion (first w).0 (first w).1 (λ _. next) h in
      (a, (first w).1, ap (λ r. (r, (first w).1)) e, k)

  resume_failure :
      (r : Result A) (w1 : World) (next : A → Action B) {e : Error} {w' : World}
      → resume r next w1 ≡ (err e, w')
      → ((r ≡ err e) × (w1 ≡ w')) ⊎ ((a : A) × (r ≡ ok a) × (next a w1 ≡ (err e, w')))
  resume_failure (ok a) w1 next h = inr (a, refl, h)
  resume_failure (err e) w1 next h = ground (arith, h)

  -- Either action failed.
  pub then_failure :
      (first : Action A) (next : Action B) (w : World) {e : Error} {w' : World}
      → (first >-> next) w ≡ (err e, w')
      → (first w ≡ (err e, w'))
        ⊎ ((a : A) × (w1 : World) × (first w ≡ (ok a, w1)) × (next w1 ≡ (err e, w')))
  unfolding ◌>->◌
  then_failure first next w {e} h = elim (resume_failure (first w).0 (first w).1 (λ _. next) h) [
    | inl (k, v) ↦ inl (ap (λ r. (r, (first w).1)) k ∙ ap (λ v. (err e, v)) v)
    | inr (a, p, k) ↦ inr (a, (first w).1, ap (λ r. (r, (first w).1)) p, k)
  ]

module _ {A B : Type 0} where
  -- A value is taken from a result.
  pub lift_inversion :
      (r : Result A) (next : A → Action B) (w : World) {b : B} {w' : World}
      → (lift r >=> next) w ≡ (ok b, w')
      → (a : A) × (r ≡ ok a) × (next a w ≡ (ok b, w'))
  unfolding ◌>=>◌
  lift_inversion r next w h = resume_inversion r w next h

module _ {B : Type 0} where
  -- An assertion held.
  pub affirm_inversion :
      (c : Bool) (message : Text) (next : Action B) (w : World) {b : B} {w' : World}
      → (affirm c message >-> next) w ≡ (ok b, w')
      → (c ≡ true) × (next w ≡ (ok b, w'))
  unfolding ◌>->◌
  affirm_inversion true message next w h = (refl, h)
  affirm_inversion false message next w h = absurd (ground (arith, h))

pub affirm_end :
    (c : Bool) (message : Text) (w : World) {w' : World}
    → affirm c message w ≡ (ok tt, w')
    → (c ≡ true) × (w ≡ w')
affirm_end true message w h = (refl, ap (λ r. r.1) h)
affirm_end false message w h = absurd (ground (arith, h))
