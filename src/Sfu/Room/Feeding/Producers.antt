-- ===== src/Sfu/Room/Feeding/Producers.antt =====
-- The iterator of a client's producers in `_consumeClient` of sfu/src/media/Room.ts.
use demo_app.Base.{
  ◌∙◌, String, ◌==◌, eq_iff, ℕ, suc, ◌≤◌, ◌<◌, List, [], ◌∷◌, ◌≡◌, refl, sym, ap, ◌⊎◌, inl, inr,
  Bool, true, false, subst, eq_refl, Option, none, some, leb, All, Bool-cases, Option-cases, arith,
}
use demo_app.Base.JsMap
use demo_app.Base.JsMap.{Entry, put, set}
use demo_app.Base.JsMap.Keys.{Each, set-Each}
use demo_app.Base.JsMap.Stamps.{Ascending, ahead, ahead_le}
use demo_app.Protocol.Json.{Json}
use demo_app.Protocol.Messages.{TransportInfo}
use demo_app.Sfu.Room.State.{Producer, Consumer, Client}
use demo_app.Sfu.Room.Consume.{is_consumed, ready, next_producer, add_consumer}

abbrev pub consumes : Client → String → Bool
consumes c id = is_consumed id (JsMap.values c.consumers)

ready-none :
    (c : Client) (p : Producer) (caps : Json) (t : TransportInfo)
    → c.rtp_capabilities ≡ some caps
    → c.rcv_transport ≡ some t
    → ready c p ≡ none
    → consumes c p.id ≡ true
unfolding ready
ready-none c p caps t e d h = ground (arith, e, d, h)

-- The entries before the iterator are consumed.
abbrev pub Behind : Client → ℕ → List (Entry Producer) → Type 0
Behind c cursor = All (λ x. leb cursor x.stamp ≡ false → consumes c x.value.id ≡ true)

pub next_producer-none :
    (c : Client) (cursor : ℕ) (es : List (Entry Producer)) (caps : Json) (t : TransportInfo)
    → c.rtp_capabilities ≡ some caps
    → c.rcv_transport ≡ some t
    → next_producer c cursor es ≡ none
    → Behind c cursor es
    → All (λ x. consumes c x.value.id ≡ true) es
unfolding next_producer
next_producer-none c cursor [] caps t e d h b = tt
next_producer-none c cursor (x ∷ es) caps t e d h b = elim (Bool-cases (leb cursor x.stamp)) [
  | inr past ↦ (b.0 past, next_producer-none c cursor es caps t e d (ground (arith, h, past)) b.1)
  | inl before ↦ elim (Option-cases (ready c x.value)) [
    | inl idle ↦ (
      ready-none c x.value caps t e d idle,
      next_producer-none c cursor es caps t e d (ground (arith, h, before, idle)) b.1,
    )
    | inr (y, runs) ↦ absurd (ground (arith, h, before, runs))
  ]
]

-- Nothing is behind an iterator that has not begun.
pub Behind-zero : (c : Client) (es : List (Entry Producer)) → Behind c 0 es
Behind-zero c [] = tt
Behind-zero c (x ∷ es) = (λ b. absurd (ground (arith, b)), Behind-zero c es)

-- What the iterator leaves behind when it stops at an entry: itself, and what is consumed.
abbrev Passed : Client → Entry Producer → List (Entry Producer) → Type 0
Passed c e = All (λ x.
    leb (suc e.stamp) x.stamp ≡ false → (x.value.id ≡ e.value.id) ⊎ (consumes c x.value.id ≡ true))

-- Behind an entry none is left behind with it.
Passed-after :
    (c : Client) (e : Entry Producer) (es : List (Entry Producer))
    → All (λ x. e.stamp < x.stamp) es
    → Passed c e es
Passed-after c e [] h = tt
Passed-after c e (x ∷ es) h = (λ k. absurd (ground (arith, k, h.0)), Passed-after c e es h.1)

abbrev Stops : Client → ℕ → Entry Producer → List (Entry Producer) → Type 0
Stops c cursor e es =
    (cursor ≤ e.stamp) × (ahead (suc e.stamp) es < ahead cursor es) × Passed c e es

abbrev entry_or : Entry Producer → Option (Entry Producer × Json × TransportInfo) → Entry Producer
entry_or e none = e
entry_or e (some (x, caps, t)) = x

Stops-here :
    (c : Client) (cursor : ℕ) (x : Entry Producer) (es : List (Entry Producer))
    → leb cursor x.stamp ≡ true
    → All (λ y. x.stamp < y.stamp) es
    → Stops c cursor x (x ∷ es)
Stops-here c cursor x es before after = (
  ground (arith, before),
  ground (arith, before, ahead_le cursor (suc x.stamp) es (ground (arith, before))),
  (λ k. inl refl, Passed-after c x es after),
)

pub next_producer-some :
    (c : Client) (cursor : ℕ) (es : List (Entry Producer)) (caps : Json) (t : TransportInfo)
    (e : Entry Producer) (y : Json) (u : TransportInfo)
    → c.rtp_capabilities ≡ some caps
    → c.rcv_transport ≡ some t
    → Ascending es
    → Behind c cursor es
    → next_producer c cursor es ≡ some (e, y, u)
    → Stops c cursor e es
unfolding next_producer
next_producer-some c cursor [] caps t e y u f g a b h = absurd (ground (arith, h))
next_producer-some c cursor (x ∷ es) caps t e y u f g a b h =
    elim (Bool-cases (leb cursor x.stamp)) [
      | inr past ↦
          let later =
            next_producer-some c cursor es caps t e y u f g a.1 b.1 (ground (arith, h, past)) in
          (later.0, ground (arith, later.1, past, later.0), (λ k. inr (b.0 past), later.2))
      | inl before ↦ elim (Option-cases (ready c x.value)) [
        | inl idle ↦
            let later =
              next_producer-some c cursor es caps t e y u f g a.1 b.1
                (ground (arith, h, before, idle)) in
            (
              later.0,
              ground (arith, later.1, before),
              (λ k. inr (ready-none c x.value caps t f g idle), later.2),
            )
        | inr ((caps', t'), runs) ↦
            let found : some (x, caps', t') ≡ some (e, y, u) = ground (arith, h, before, runs) in
            subst (λ z. Stops c cursor z (x ∷ es)) (ap (entry_or x) found)
              (Stops-here c cursor x es before a.0)
      ]
    ]

-- A consumer under a key replaces at most one of the same producer.
abbrev pub Keyed : (String → Consumer) → JsMap.JsMap Consumer → Type 0
Keyed make m = Each (λ key c. (q : String) → (make q).id ≡ key → c.producer_id ≡ q) m.entries

put-consumed_old :
    (make : String → Consumer) (p q : String) (n : ℕ) (es : List (Entry Consumer))
    → (make p).producer_id ≡ p
    → Each (λ key c. (o : String) → (make o).id ≡ key → c.producer_id ≡ o) es
    → is_consumed q (JsMap.values (record { entries = es; next = n })) ≡ true
    → is_consumed q (JsMap.values (record { entries = put (make p).id (make p) n es; next = n }))
      ≡ true
unfolding put is_consumed
put-consumed_old make p q n [] own k h = absurd (ground (arith, h))
put-consumed_old make p q n (e ∷ es) own k h = elim (Bool-cases (e.key == (make p).id)) [
  | inl hit ↦
      let same : e.value.producer_id ≡ p = k.0 p (sym ((eq_iff e.key (make p).id).0 hit)) in
      rw (put, hit) (ground (arith, h, same, own))
  | inr miss ↦ elim (Bool-cases (e.value.producer_id == q)) [
    | inl y ↦ rw (put, miss, y) refl
    | inr y ↦ rw (put, miss, y) (put-consumed_old make p q n es own k.1 (ground (arith, h, y)))
  ]
]

put-consumed_new :
    (c : Consumer) (n : ℕ) (es : List (Entry Consumer))
    → is_consumed c.producer_id (JsMap.values (record { entries = put c.id c n es; next = n }))
      ≡ true
unfolding put is_consumed
put-consumed_new c n [] = rw (eq_refl c.producer_id) refl
put-consumed_new c n (e ∷ es) = elim (Bool-cases (e.key == c.id)) [
  | inl hit ↦ rw (put, hit, eq_refl c.producer_id) refl
  | inr miss ↦ rw (put, miss) (ground (arith, put-consumed_new c n es))
]

module _ (make : String → Consumer) (own : (q : String) → (make q).producer_id ≡ q) where
  -- A new consumer leaves what is consumed consumed, and its producer is consumed.
  consumes-add_consumer_old :
      (p q : String) (c : Client)
      → Keyed make c.consumers
      → consumes c q ≡ true
      → consumes (add_consumer (make p) c) q ≡ true
  unfolding add_consumer set
  consumes-add_consumer_old p q c k h =
      put-consumed_old make p q c.consumers.next c.consumers.entries (own p) k h

  consumes-add_consumer : (p : String) (c : Client) → consumes (add_consumer (make p) c) p ≡ true
  unfolding add_consumer set
  consumes-add_consumer p c =
      subst (λ q. consumes (add_consumer (make p) c) q ≡ true) (own p)
        (put-consumed_new (make p) c.consumers.next c.consumers.entries)

  -- The entries behind the iterator once the consumer for the one that it stopped at is there.
  pub Behind-add_consumer :
      (c : Client) (e : Entry Producer) (es : List (Entry Producer))
      → Keyed make c.consumers
      → Passed c e es
      → Behind (add_consumer (make e.value.id) c) (suc e.stamp) es
  Behind-add_consumer c e [] k h = tt
  Behind-add_consumer c e (x ∷ es) k h = (
    λ b. elim (h.0 b) [
      | inl same ↦
          subst (λ q. consumes (add_consumer (make e.value.id) c) q ≡ true) (sym same)
            (consumes-add_consumer e.value.id c)
      | inr old ↦ consumes-add_consumer_old e.value.id x.value.id c k old
    ],
    Behind-add_consumer c e es k h.1,
  )

  -- What a client that gets consumers keeps.
  pub record Grown (c d : Client) : Type 0 where
    pub same_id : d.client_id ≡ c.client_id
    pub same_events : d.events ≡ c.events
    pub same_producers : d.producers ≡ c.producers
    pub same_capabilities : d.rtp_capabilities ≡ c.rtp_capabilities
    pub same_transport : d.rcv_transport ≡ c.rcv_transport
    pub more : (q : String) → consumes c q ≡ true → consumes d q ≡ true
    pub still_keyed : Keyed make d.consumers

  pub Grown-refl : (c : Client) → Keyed make c.consumers → Grown c c
  Grown-refl c k = record {
    same_id = refl;
    same_events = refl;
    same_producers = refl;
    same_capabilities = refl;
    same_transport = refl;
    more = λ q h. h;
    still_keyed = k;
  }

  pub Grown-trans : (c d e : Client) → Grown c d → Grown d e → Grown c e
  Grown-trans c d e g h = record {
    same_id = h.same_id ∙ g.same_id;
    same_events = h.same_events ∙ g.same_events;
    same_producers = h.same_producers ∙ g.same_producers;
    same_capabilities = h.same_capabilities ∙ g.same_capabilities;
    same_transport = h.same_transport ∙ g.same_transport;
    more = λ q m. h.more q (g.more q m);
    still_keyed = h.still_keyed;
  }

  pub add_consumer-Grown :
      (unlike : (a b : String) → (make a).id ≡ (make b).id → a ≡ b) (p : String) (c : Client)
      → Keyed make c.consumers
      → Grown c (add_consumer (make p) c)
  unfolding add_consumer
  add_consumer-Grown unlike p c k = record {
    same_id = refl;
    same_events = refl;
    same_producers = refl;
    same_capabilities = refl;
    same_transport = refl;
    more = λ q h. consumes-add_consumer_old p q c k h;
    still_keyed = set-Each _ (make p).id (make p) c.consumers (λ q e. own p ∙ sym (unlike q p e)) k;
  }
