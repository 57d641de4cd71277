-- ===== src/Pubsub/Delivery.antt =====
-- internal/pubsub/broker.go: what a subscriber gets of the events that are forwarded.
use otf.Prelude.{
  ℕ, ◌==◌, ◌<◌, Bool, true, false, not, ◌≡◌, refl, sym, ap, ◌∙◌, subst, ◌⊎◌, inl, inr, Option, some,
  List, [], ◌∷◌, ◌++◌, String, ok, length, length-append, Bool-cases, Option-cases, arith,
  if◌then◌else◌,
}
use mathlib.Core.List.{append_assoc, append-nil}
use otf.Pubsub.Received.{
  Step, subscribes, enables, disables, unsubscribes, receives, forwards, step, run_all, listed,
  taken, received, sent, forwarded, IsKept, Follows,
}
use otf.Pubsub.Subscriptions.{
  Stays, unsubscribe-Stays, unsubscribe_below-Stays, unsubscribe_all-Stays, unsubscribe_all_ends,
}
use otf.Pubsub.Offers.{publish-subs, publish_gone, publish-Offered}
use otf.Pubsub.{
  Event, SqlEvent, Broker, unsubscribe, disable, subscribe, event_of, publish, unsubscribe_all,
  forward, forward_event, receive,
}

module _ {ℓ} {T : Type ℓ} where
  follow :
      (size id : ℕ) (b c : Broker T) (got missed all : List (Event T))
      → Stays id b c
      → IsKept size id b
      → got ++ (b.channels id).buffer ++ missed ≡ all
      → (c.subs id ≡ true → missed ≡ [])
      → Follows size id c got all
  follow size id b c got missed all (same, ends, subs, next) (shut, made, fits) all_of none_of = (
    (ends shut, subst (λ n. id < n) (sym next) made, rw same fits),
    (missed, rw same all_of, none_of),
  )

  Stays-Follows :
      (size id : ℕ) (b c : Broker T) (got all : List (Event T))
      → Stays id b c
      → Follows size id b got all
      → Follows size id c got all
  Stays-Follows size id b c got all stays (kept, (missed, all_of, none_of)) =
      follow size id b c got missed all stays kept all_of (λ h. none_of (stays.2 h))

  subscribe-Follows :
      (size id : ℕ) (b : Broker T) (got all : List (Event T))
      → Follows size id b got all
      → Follows size id (subscribe b).0 got all
  unfolding subscribe
  subscribe-Follows size id b got all ((shut, made, fits), (missed, all_of, none_of)) =
      elim (Bool-cases b.enabled) [
        | inr off ↦ rw off ((shut, made, fits), (missed, all_of, none_of))
        | inl on ↦
            let other : (id == b.next) ≡ false = ground arith in
            rw (on, other) ((shut, omega (arith, made), fits), (missed, all_of, none_of))
      ]

  List-cases :
      (l : List (Event T)) → (l ≡ []) ⊎ ((e : Event T) × (rest : List (Event T)) × (l ≡ e ∷ rest))
  List-cases [] = inl refl
  List-cases (e ∷ rest) = inr (e, rest, refl)

  taken_none : (test : Bool) (got : List (Event T)) → got ++ (if test then [] else []) ≡ got
  taken_none true got = append-nil got
  taken_none false got = append-nil got

  receive-Follows :
      (size k id : ℕ) (b : Broker T) (got all : List (Event T))
      → Follows size id b got all
      → Follows size id (receive k b).0 (got ++ taken id (receives k) b) all
  unfolding receive
  receive-Follows size k id b got all ((shut, made, fits), (missed, all_of, none_of)) =
      elim (List-cases (b.channels k).buffer) [
        | inl empty ↦
            rw (empty, taken_none (k == id) got) ((shut, made, fits), (missed, all_of, none_of))
        | inr (e, rest, full) ↦ elim (Bool-cases (id == k)) [
          | inr other ↦
              let apart : (k == id) ≡ false = ground arith in
              rw (full, other, apart, append-nil got)
                ((shut, made, fits), (missed, all_of, none_of))
          | inl same ↦
              let at : k ≡ id = ground arith in
              let there : (k == id) ≡ true = ground arith in
              let was : (b.channels id).buffer ≡ e ∷ rest =
                subst (λ i. (b.channels i).buffer ≡ e ∷ rest) at full in
              rw (full, same, there)
                (
                  (
                    subst (λ i. (b.channels i).closed ≡ not (b.subs id)) (sym at) shut,
                    made,
                    omega (arith, fits, ap length was),
                  ),
                  (
                    missed,
                    ap (λ l. l ++ missed) (append_assoc got (e ∷ []) rest)
                        ∙ ap (λ l. got ++ l ++ missed) (sym was)
                        ∙ all_of,
                    none_of,
                  ),
                )
        ]
      ]

  published-Follows :
      (size id : ℕ) (e : Event T) (b : Broker T) (got all : List (Event T))
      → Follows size id b got all
      → Follows size id (forward_event size b (some e)) got (all ++ e ∷ [])
  published-Follows size id e b got all ((shut, made, fits), (missed, all_of, none_of)) =
      let p = publish size e b.next b in
      let (subs, next) = publish-subs size e b.next b in
      let stays = unsubscribe_all-Stays p.1 id p.0 in
      let on = ap (λ f. f id) subs in
      elim (Bool-cases (b.subs id)) [
        | inr gone ↦
            let same = publish_gone size e b.next id b gone in
            follow size id p.0 (unsubscribe_all p.1 p.0) got (missed ++ e ∷ []) (all ++ e ∷ [])
              stays (rw (same, on) shut, rw next made, rw same fits)
              (rw same (
                sym (append_assoc (got ++ (b.channels id).buffer) missed (e ∷ []))
                ∙ ap (λ l. l ++ e ∷ []) all_of))
              (λ h. absurd (ground (arith, stays.2 h, on, gone)))
        | inl there ↦
            let so_far : got ++ (b.channels id).buffer ≡ all =
              sym (append-nil (got ++ (b.channels id).buffer))
              ∙ ap (λ m. got ++ (b.channels id).buffer ++ m) (sym (none_of there))
              ∙ all_of in
            elim (publish-Offered size e b.next id b made there) [
              | inl (room, sent) ↦
                  follow size id p.0 (unsubscribe_all p.1 p.0) got [] (all ++ e ∷ []) stays
                    (
                      rw (sent, on) shut,
                      rw next made,
                      omega (
                        arith,
                        room,
                        ap (λ ch. length ch.buffer) sent,
                        length-append (b.channels id).buffer (e ∷ []),
                      ),
                    )
                    (rw sent (
                      append-nil (got ++ ((b.channels id).buffer ++ e ∷ []))
                      ∙ sym (append_assoc got (b.channels id).buffer (e ∷ []))
                      ∙ ap (λ l. l ++ e ∷ []) so_far))
                    (λ h. refl)
              | inr (same, full) ↦
                  follow size id p.0 (unsubscribe_all p.1 p.0) got (e ∷ []) (all ++ e ∷ []) stays
                    (rw (same, on) shut, rw next made, rw same fits)
                    (rw same (ap (λ l. l ++ e ∷ []) so_far))
                    (λ h. absurd (ground (arith, unsubscribe_all_ends p.1 id p.0 full, h)))
            ]
      ]

  forward-Follows :
      (size id : ℕ) (unmarshal : String → Option T) (e : SqlEvent) (b : Broker T)
      (got all : List (Event T))
      → Follows size id b got all
      → Follows size id (forward size unmarshal e b) got (all ++ listed (event_of unmarshal e))
  unfolding forward
  forward-Follows size id unmarshal e b got all h = elim (Option-cases (event_of unmarshal e)) [
    | inl n ↦ rw (n, append-nil all) h
    | inr (event, m) ↦ rw m (published-Follows size id event b got all h)
  ]

  -- The other steps neither send nor receive.
  step-Follows :
      (size id : ℕ) (unmarshal : String → Option T) (s : Step) (b : Broker T)
      (got all : List (Event T))
      → Follows size id b got all
      → Follows size id (step size unmarshal s b) (got ++ taken id s b) (all ++ sent unmarshal s)
  unfolding disable
  step-Follows size id unmarshal subscribes b got all h =
      rw (append-nil got, append-nil all) (subscribe-Follows size id b got all h)
  step-Follows size id unmarshal enables b got all h = rw (append-nil got, append-nil all) h
  step-Follows size id unmarshal disables b got all h =
      rw (append-nil got, append-nil all)
        (Stays-Follows size id (record b { enabled = false }) (disable b) got all
          (unsubscribe_below-Stays b.next id (record b { enabled = false })) h)
  step-Follows size id unmarshal (unsubscribes k) b got all h =
      rw (append-nil got, append-nil all)
        (Stays-Follows size id b (unsubscribe k b) got all (unsubscribe-Stays k id b) h)
  step-Follows size id unmarshal (receives k) b got all h =
      rw (append-nil all) (receive-Follows size k id b got all h)
  step-Follows size id unmarshal (forwards e) b got all h =
      rw (append-nil got) (forward-Follows size id unmarshal e b got all h)

  run_all-Follows :
      (size id : ℕ) (unmarshal : String → Option T) (steps : List Step) (b : Broker T)
      (got all : List (Event T))
      → Follows size id b got all
      → Follows size id
          (run_all size unmarshal steps b)
          (got ++ received size unmarshal id steps b)
          (all ++ forwarded unmarshal steps)
  run_all-Follows size id unmarshal [] b got all h = rw (append-nil got, append-nil all) h
  run_all-Follows size id unmarshal (s ∷ rest) b got all h =
      let later =
        run_all-Follows size id unmarshal rest (step size unmarshal s b) (got ++ taken id s b)
          (all ++ sent unmarshal s) (step-Follows size id unmarshal s b got all h) in
      rw
        (
          ← append_assoc got (taken id s b)
              (received size unmarshal id rest (step size unmarshal s b)),
          ← append_assoc all (sent unmarshal s) (forwarded unmarshal rest),
        )
        later

  -- After a subscription, whatever is subscribed, ended, forwarded and received in whatever order:
  -- the events that the subscriber has received, with those in its buffer, are the events that were
  -- forwarded since, in their order, up to a point, and all of them where the subscription has not
  -- ended. Its channel is closed exactly where it has, and the buffer has never more than its size.
  pub run_all-received :
      (size id : ℕ) (unmarshal : String → Option T) (steps : List Step) (b : Broker T)
      → (subscribe b).1 ≡ ok id
      → Follows size id
          (run_all size unmarshal steps (subscribe b).0)
          (received size unmarshal id steps (subscribe b).0)
          (forwarded unmarshal steps)
  unfolding subscribe
  run_all-received size id unmarshal steps b h =
      run_all-Follows size id unmarshal steps (subscribe b).0 [] [] (elim (Bool-cases b.enabled) [
        | inr off ↦ absurd (ground (arith, rw off at h))
        | inl on ↦
            let made : b.next ≡ id = ground (arith, rw on at h) in
            let same : (id == b.next) ≡ true = ground (arith, made) in
            rw (on, same) ((refl, omega (arith, made), omega arith), ([], refl, λ k. refl))
      ])
