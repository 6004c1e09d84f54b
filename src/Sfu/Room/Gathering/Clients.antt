-- ===== src/Sfu/Room/Gathering/Clients.antt =====
-- The iterator over `_clients` in the listener of `join-call-request` of sfu/src/media/Room.ts.
use demo_app.Base.{
  String, ◌==◌, eq_iff, eq_refl, ℕ, suc, ◌≤◌, ◌<◌, List, [], ◌∷◌, ◌≡◌, ◌≢◌, refl, ap, ◌⊎◌, inl, inr,
  true, false, not, ◌&&◌, Option, none, some, leb, All, Bool-cases, arith, subst,
}
use demo_app.Base.JsMap.{Entry, find}
use demo_app.Base.JsMap.Keys.{Distinct}
use demo_app.Base.JsMap.Stamps.{Ascending, ahead, ahead_le}
use demo_app.Sfu.Room.Consume.{next_other}

pub next_other-none :
    (own : String) (cursor : ℕ) (es : List (Entry ℕ))
    → next_other own cursor es ≡ none
    → All (λ y. leb cursor y.stamp ≡ true → own ≡ y.key) es
unfolding next_other
next_other-none own cursor [] h = tt
next_other-none own cursor (x ∷ es) h =
    elim (Bool-cases (leb cursor x.stamp && not (own == x.key))) [
      | inl hit ↦ absurd (ground (arith, h, hit))
      | inr miss ↦ (
        λ b. ground (arith, miss, b, eq_iff own x.key),
        next_other-none own cursor es (ground (arith, h, miss)),
      )
    ]

-- An entry is found under its key.
find-entry :
    (x : Entry ℕ) (es : List (Entry ℕ)) (e : Entry ℕ)
    → find e.key es ≡ none
    → find x.key es ≡ some x.value
    → find x.key (e ∷ es) ≡ some x.value
unfolding find
find-entry x es e n f = elim (Bool-cases (e.key == x.key)) [
  | inl hit ↦
      let same : e.key ≡ x.key = (eq_iff e.key x.key).0 hit in
      absurd (ground (arith, f, n, ap (λ k. find k es) same))
  | inr miss ↦ rw miss f
]

abbrev entry_or : Entry ℕ → Option (Entry ℕ) → Entry ℕ
entry_or e none = e
entry_or e (some x) = x

-- Where the iterator stops: at an entry of another client, with what `P` says of those behind it.
abbrev pub Halts {κ} : (Entry ℕ → Type κ) → String → ℕ → Entry ℕ → List (Entry ℕ) → Type κ
Halts P own cursor x es =
    (cursor ≤ x.stamp)
    × (ahead (suc x.stamp) es < ahead cursor es)
    × (own ≢ x.key)
    × (find x.key es ≡ some x.value)
    × All (λ y. leb (suc x.stamp) y.stamp ≡ false → P y ⊎ (y ≡ x)) es

module _ {κ} (P : Entry ℕ → Type κ) (own : String) (skips : (y : Entry ℕ) → own ≡ y.key → P y) where
  none_after :
      (x : Entry ℕ) (es : List (Entry ℕ))
      → All (λ y. x.stamp < y.stamp) es
      → All (λ y. leb (suc x.stamp) y.stamp ≡ false → P y ⊎ (y ≡ x)) es
  none_after x [] a = tt
  none_after x (y ∷ es) a = (λ b. absurd (ground (arith, b, a.0)), none_after x es a.1)

  Halts-here :
      (cursor : ℕ) (x : Entry ℕ) (es : List (Entry ℕ))
      → leb cursor x.stamp ≡ true
      → own ≢ x.key
      → All (λ y. x.stamp < y.stamp) es
      → Halts P own cursor x (x ∷ es)
  unfolding find
  Halts-here cursor x es before n a = (
    ground (arith, before),
    ground (arith, before, ahead_le cursor (suc x.stamp) es (ground (arith, before))),
    n,
    rw (eq_refl x.key) refl,
    (λ b. inr refl, none_after x es a),
  )

  pub next_other-some :
      (cursor : ℕ) (es : List (Entry ℕ)) (x : Entry ℕ)
      → Ascending es
      → Distinct es
      → All (λ y. leb cursor y.stamp ≡ false → P y) es
      → next_other own cursor es ≡ some x
      → Halts P own cursor x es
  unfolding next_other
  next_other-some cursor [] x a d b h = absurd (ground (arith, h))
  next_other-some cursor (e ∷ es) x a d b h =
      elim (Bool-cases (leb cursor e.stamp && not (own == e.key))) [
        | inl hit ↦
            let found : some e ≡ some x = ground (arith, h, hit) in
            subst (λ z. Halts P own cursor z (e ∷ es)) (ap (entry_or e) found)
              (Halts-here cursor e es (ground (arith, hit))
                (λ q. absurd (ground (arith, hit, eq_iff own e.key, q))) a.0)
        | inr miss ↦
            let later = next_other-some cursor es x a.1 d.1 b.1 (ground (arith, h, miss)) in
            (
              later.0,
              ground (arith, later.1, later.0),
              later.2,
              find-entry x es e d.0 later.3,
              (
                λ k. elim (Bool-cases (leb cursor e.stamp)) [
                  | inl before ↦ inl (skips e (ground (arith, miss, before, eq_iff own e.key)))
                  | inr past ↦ inl (b.0 past)
                ],
                later.4,
              ),
            )
      ]
