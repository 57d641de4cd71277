-- ===== src/Pubsub/Subscriptions.antt =====
-- internal/pubsub/broker.go: what the ends of subscriptions leave.
use otf.Prelude.{
  ℕ, zero, suc, ◌==◌, true, false, not, ◌≡◌, refl, sym, ap, ◌∙◌, subst, inl, inr, List, [], ◌∷◌, In,
  Bool-cases, arith,
}
use otf.Pubsub.{Broker, unsubscribe, unsubscribe_below, unsubscribe_all}

module _ {ℓ} {T : Type ℓ} where
  -- The buffer stays, and no subscription is added.
  abbrev pub Stays : ℕ → Broker T → Broker T → Type ℓ
  Stays id b c =
      ((c.channels id).buffer ≡ (b.channels id).buffer)
      × ((b.channels id).closed ≡ not (b.subs id) → (c.channels id).closed ≡ not (c.subs id))
      × (c.subs id ≡ true → b.subs id ≡ true)
      × (c.next ≡ b.next)

  pub Stays-refl : (id : ℕ) (b : Broker T) → Stays id b b
  Stays-refl id b = (refl, (λ h. h), (λ h. h), refl)

  Stays-trans : (id : ℕ) (b c d : Broker T) → Stays id b c → Stays id c d → Stays id b d
  Stays-trans id b c d (p, q, r, s) (p', q', r', s') =
      (p' ∙ p, (λ h. q' (q h)), (λ h. r (r' h)), s' ∙ s)

  pub unsubscribe-Stays : (k id : ℕ) (b : Broker T) → Stays id b (unsubscribe k b)
  unfolding unsubscribe
  unsubscribe-Stays k id b = elim (Bool-cases (b.subs k)) [
    | inr h ↦ rw h (Stays-refl id b)
    | inl h ↦ elim (Bool-cases (id == k)) [
      | inr other ↦ rw (h, other) (refl, (λ h. h), (λ h. h), refl)
      | inl same ↦
          let e : id ≡ k = ground arith in
          rw (h, same)
            (
              ap (λ i. (b.channels i).buffer) (sym e),
              (λ h. refl),
              (λ h. absurd (ground (arith, h))),
              refl,
            )
    ]
  ]

  pub unsubscribe_below-Stays : (n id : ℕ) (b : Broker T) → Stays id b (unsubscribe_below n b)
  unfolding unsubscribe_below
  unsubscribe_below-Stays zero id b = Stays-refl id b
  unsubscribe_below-Stays (suc n) id b =
      Stays-trans id b (unsubscribe_below n b) (unsubscribe n (unsubscribe_below n b))
        (unsubscribe_below-Stays n id b) (unsubscribe-Stays n id (unsubscribe_below n b))

  pub unsubscribe_all-Stays :
      (l : List ℕ) (id : ℕ) (b : Broker T) → Stays id b (unsubscribe_all l b)
  unfolding unsubscribe_all
  unsubscribe_all-Stays [] id b = Stays-refl id b
  unsubscribe_all-Stays (k ∷ l) id b =
      Stays-trans id b (unsubscribe k b) (unsubscribe_all l (unsubscribe k b))
        (unsubscribe-Stays k id b) (unsubscribe_all-Stays l id (unsubscribe k b))

  unsubscribe_ends : (id : ℕ) (b : Broker T) → (unsubscribe id b).subs id ≡ false
  unfolding unsubscribe
  unsubscribe_ends id b = ground arith

  -- What leaves the subscriptions does not come back.
  Stays-gone : (id : ℕ) (b c : Broker T) → Stays id b c → b.subs id ≡ false → c.subs id ≡ false
  Stays-gone id b c (p, q, r, s) h = elim (Bool-cases (c.subs id)) [
    | inr k ↦ k
    | inl k ↦ absurd (ground (arith, r k, h))
  ]

  pub unsubscribe_all_ends :
      (l : List ℕ) (id : ℕ) (b : Broker T) → In id l → (unsubscribe_all l b).subs id ≡ false
  unfolding unsubscribe_all
  unsubscribe_all_ends [] id b m = absurd m
  unsubscribe_all_ends (k ∷ l) id b (inl e) =
      Stays-gone id (unsubscribe k b) (unsubscribe_all l (unsubscribe k b))
        (unsubscribe_all-Stays l id (unsubscribe k b))
        (subst (λ i. (unsubscribe i b).subs id ≡ false) e (unsubscribe_ends id b))
  unsubscribe_all_ends (k ∷ l) id b (inr m) = unsubscribe_all_ends l id (unsubscribe k b) m
