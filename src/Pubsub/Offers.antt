-- ===== src/Pubsub/Offers.antt =====
-- internal/pubsub/broker.go: what the loop over the subscriptions does to one of them.
use otf.Prelude.{
  ℕ, zero, suc, ltb, ◌==◌, ◌<◌, ◌≤◌, true, false, ◌≡◌, refl, ap, ◌∙◌, subst, ◌⊎◌, inl, inr, List,
  [], ◌∷◌, ◌++◌, length, In, In-append_left, In-append_right, Bool-cases, arith,
}
use otf.Pubsub.{Event, Channel, Broker, offer, publish}

module _ {ℓ} {T : Type ℓ} (size : ℕ) (e : Event T) where
  -- A subscription gets the event, or is listed as full.
  abbrev pub Offered : ℕ → Channel T → Broker T × List ℕ → Type ℓ
  Offered id old (c, full) =
      ((length old.buffer < size) × (c.channels id ≡ record old { buffer = old.buffer ++ e ∷ [] }))
      ⊎ ((c.channels id ≡ old) × In id full)

  offer-subs :
      (k : ℕ) (p : Broker T × List ℕ)
      → ((offer size e k p).0.subs ≡ p.0.subs) × ((offer size e k p).0.next ≡ p.0.next)
  unfolding offer
  offer-subs k (b, full) = ground arith

  offer_gone :
      (k id : ℕ) (p : Broker T × List ℕ)
      → p.0.subs id ≡ false
      → (offer size e k p).0.channels id ≡ p.0.channels id
  unfolding offer
  offer_gone k id (b, full) h = ground (arith, h)

  offer_other :
      (k id : ℕ) (p : Broker T × List ℕ)
      → (id == k) ≡ false
      → ((offer size e k p).0.channels id ≡ p.0.channels id)
        × (In id p.1 → In id (offer size e k p).1)
  unfolding offer
  offer_other k id (b, full) h = elim (Bool-cases (b.subs k)) [
    | inr s ↦ rw s (refl, λ m. m)
    | inl s ↦ elim (Bool-cases (ltb (length (b.channels k).buffer) size)) [
      | inl r ↦ rw (s, r, h) (refl, λ m. m)
      | inr r ↦ rw (s, r) (refl, λ m. In-append_left id full (k ∷ []) m)
    ]
  ]

  offer-Offered :
      (id : ℕ) (p : Broker T × List ℕ)
      → p.0.subs id ≡ true
      → Offered id (p.0.channels id) (offer size e id p)
  unfolding offer
  offer-Offered id (b, full) h = elim (Bool-cases (ltb (length (b.channels id).buffer) size)) [
    | inl r ↦ rw (h, r) (inl (ground arith, ground arith))
    | inr r ↦ rw (h, r) (inr (refl, In-append_right id full (id ∷ []) (inl refl)))
  ]

  pub publish-subs :
      (n : ℕ) (b : Broker T)
      → ((publish size e n b).0.subs ≡ b.subs) × ((publish size e n b).0.next ≡ b.next)
  unfolding publish
  publish-subs zero b = (refl, refl)
  publish-subs (suc n) b =
      let (s, m) = publish-subs n b in
      let (s', m') = offer-subs n (publish size e n b) in (s' ∙ s, m' ∙ m)

  pub publish_gone :
      (n id : ℕ) (b : Broker T)
      → b.subs id ≡ false
      → (publish size e n b).0.channels id ≡ b.channels id
  unfolding publish
  publish_gone zero id b h = refl
  publish_gone (suc n) id b h =
      offer_gone n id (publish size e n b) (ap (λ f. f id) (publish-subs n b).0 ∙ h)
      ∙ publish_gone n id b h

  publish_above :
      (n id : ℕ) (b : Broker T) → n ≤ id → (publish size e n b).0.channels id ≡ b.channels id
  unfolding publish
  publish_above zero id b h = refl
  publish_above (suc n) id b h =
      (offer_other n id (publish size e n b) (ground arith)).0
      ∙ publish_above n id b (omega (arith, h))

  pub publish-Offered :
      (n id : ℕ) (b : Broker T)
      → id < n
      → b.subs id ≡ true
      → Offered id (b.channels id) (publish size e n b)
  unfolding publish
  publish-Offered zero id b h k = absurd (omega (arith, h))
  publish-Offered (suc n) id b h k = elim (Bool-cases (id == n)) [
    | inl same ↦
        let at : id ≡ n = ground arith in
        let on : (publish size e n b).0.subs id ≡ true = ap (λ f. f id) (publish-subs n b).0 ∙ k in
        subst (λ i. Offered id (b.channels id) (offer size e i (publish size e n b))) at
          (subst (λ ch. Offered id ch (offer size e id (publish size e n b)))
            (publish_above n id b (omega (arith, at))) (offer-Offered id (publish size e n b) on))
    | inr other ↦
        let (same, kept) = offer_other n id (publish size e n b) other in
        elim (publish-Offered n id b (ground arith) k) [
          | inl (room, got) ↦ inl (room, same ∙ got)
          | inr (as_before, full) ↦ inr (same ∙ as_before, kept full)
        ]
  ]
