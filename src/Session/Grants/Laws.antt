-- ===== src/Session/Grants/Laws.antt =====
-- The grant of crates/agent-seat-x11/src/config.rs to a peer.
use mathlib.Core.List.{Mem}
use agent_seat_proto.Prelude.{
  ℕ, ◌≡◌, refl, sym, ap, ◌∙◌, arith, Bool, true, false, ◌&&◌, ◌↔◌, Bool-cases, inl, inr, Option,
  none, some, List, [], ◌∷◌, ◌++◌, any, if◌then◌else◌, All, ◌==◌, ==_iff, &&_iff, length, ◌≤◌,
}
use agent_seat_proto.Proto.Order.{strictly_ordered, windows}
use agent_seat_proto.Proto.Order.Laws.{Ascending, strictly_ordered_iff}
use agent_seat_proto.Proto.Capability.{
  Capability, Feature, contains, same_capability, feature_rank, capability_ord, feature_ord,
}
use agent_seat_proto.Proto.Capability.Laws.{contains_iff, same_capability_iff}
use agent_seat_proto.Session.Grants.{Grant, keep, granted, offered_features, injects}

keep-All :
    (P : Capability → Type 0) (capabilities requested : List Capability)
    → All P requested
    → All P (keep capabilities requested)
unfolding keep
keep-All P capabilities [] h = tt
keep-All P capabilities (c ∷ rest) h = elim (Bool-cases (contains capabilities c)) [
  | inl kept ↦ rw kept (h.0, keep-All P capabilities rest h.1)
  | inr dropped ↦ rw dropped (keep-All P capabilities rest h.1)
]

keep-Ascending :
    (capabilities requested : List Capability)
    → Ascending requested
    → Ascending (keep capabilities requested)
unfolding keep
keep-Ascending capabilities [] h = tt
keep-Ascending capabilities (c ∷ rest) h = elim (Bool-cases (contains capabilities c)) [
  | inl kept ↦ rw kept (
    keep-All (λ y. capability_ord.less c y ≡ true) capabilities rest h.0,
    keep-Ascending capabilities rest h.1,
  )
  | inr dropped ↦ rw dropped (keep-Ascending capabilities rest h.1)
]

keep-length :
    (capabilities requested : List Capability)
    → length (keep capabilities requested) ≤ length requested
unfolding keep
keep-length capabilities [] = omega arith
keep-length capabilities (c ∷ rest) = ground (arith, keep-length capabilities rest)

same-contains :
    (capabilities : List Capability) (c x : Capability)
    → same_capability c x ≡ true
    → contains capabilities c ≡ contains capabilities x
same-contains capabilities c x same = ap (contains capabilities) ((same_capability_iff c x).0 same)

and_false : (a b : Bool) → b ≡ false → (a && b) ≡ false
and_false true b off = off
and_false false b off = refl

keep-contains :
    (capabilities requested : List Capability) (c : Capability)
    → contains (keep capabilities requested) c ≡ (contains requested c && contains capabilities c)
unfolding keep contains
keep-contains capabilities [] c = refl
keep-contains capabilities (x ∷ rest) c = elim (Bool-cases (same_capability c x)) [
  | inl same ↦ elim (Bool-cases (contains capabilities x)) [
    | inl kept ↦ rw (same-contains capabilities c x same, kept, same) refl
    | inr dropped ↦
        let rest_same = keep-contains capabilities rest c in
        rw (same-contains capabilities c x same, dropped, same)
          (rest_same ∙ and_false _ _ (same-contains capabilities c x same ∙ dropped))
  ]
  | inr other ↦ elim (Bool-cases (contains capabilities x)) [
    | inl kept ↦ rw (kept, other) (keep-contains capabilities rest c)
    | inr dropped ↦ rw (dropped, other) (keep-contains capabilities rest c)
  ]
]

feature_lem :
    (a b c : Bool)
    → strictly_ordered (
        Feature.ewmh_observation
        ∷ Feature.ewmh_management
        ∷ Feature.desktop_launch
        ∷ ((if a then Feature.obscured_capture ∷ [] else [])
            ++ ((if b then Feature.input_injection ∷ [] else [])
                ++ (if c then Feature.text_transfer ∷ [] else []))))
      ≡ true
unfolding strictly_ordered windows feature_rank
feature_lem true true true = refl
feature_lem true true false = refl
feature_lem true false true = refl
feature_lem true false false = refl
feature_lem false true true = refl
feature_lem false true false = refl
feature_lem false false true = refl
feature_lem false false false = refl

-- The features of a welcome are in canonical order, whatever was granted.
pub offered_features-strictly_ordered :
    (allowed : List Capability) → strictly_ordered (offered_features allowed) ≡ true
unfolding offered_features
offered_features-strictly_ordered allowed =
    feature_lem (contains allowed Capability.capture_obscured) (any injects allowed)
      (contains allowed Capability.text_transfer)

pub features_length : (allowed : List Capability) → length (offered_features allowed) ≤ 6
unfolding offered_features
features_length allowed = ground arith

-- The grant that a configuration gives to a peer.
pub record Granted (grant : Option Grant) (uid : ℕ) (requested allowed : List Capability)
    : Type 0 where
  pub entry : Grant
  pub configured : grant ≡ some entry
  pub owner : entry.uid ≡ uid
  pub exact : (c : Capability) → Mem c allowed ↔ (Mem c requested × Mem c entry.capabilities)
  pub ordered : strictly_ordered allowed ≡ true
  pub short : length allowed ≤ length requested

keep-Mem :
    (capabilities requested : List Capability) (c : Capability)
    → Mem c (keep capabilities requested) ↔ (Mem c requested × Mem c capabilities)
keep-Mem capabilities requested c = (forward, back)
  where
    forward : Mem c (keep capabilities requested) → Mem c requested × Mem c capabilities
    forward found =
        let both =
          sym (keep-contains capabilities requested c)
          ∙ (contains_iff (keep capabilities requested) c).1 found in
        let (asked, held) = (&&_iff (contains requested c) (contains capabilities c)).0 both in
        ((contains_iff requested c).0 asked, (contains_iff capabilities c).0 held)

    back : Mem c requested × Mem c capabilities → Mem c (keep capabilities requested)
    back (asked, held) = (contains_iff (keep capabilities requested) c).0 (
        keep-contains capabilities requested c
        ∙ (&&_iff (contains requested c) (contains capabilities c)).1
            ((contains_iff requested c).1 asked, (contains_iff capabilities c).1 held))

-- The part of it that needs no order.
pub granted_exact :
    (grant : Option Grant) (uid : ℕ) (requested allowed : List Capability)
    → granted grant uid requested ≡ some allowed
    → (entry : Grant) × (grant ≡ some entry)
      × (entry.uid ≡ uid)
      × ((c : Capability) → Mem c allowed ↔ (Mem c requested × Mem c entry.capabilities))
unfolding granted
granted_exact none uid requested allowed found = absurd cc
granted_exact (some entry) uid requested allowed found = elim (Bool-cases (entry.uid == uid)) [
  | inr other ↦ absurd (cc (rw other at found))
  | inl own ↦
      let is = some_lem (rw own at found) in
      (entry, refl, (==_iff entry.uid uid).0 own, rw (← is) (keep-Mem entry.capabilities requested))
]
  where
    some_lem : {a b : List Capability} → some a ≡ some b → a ≡ b
    some_lem same = cc

-- What a configuration grants to a peer that asks in canonical order is exactly what was asked for
-- and is configured for the peer's uid, in canonical order, and never longer than the request.
pub granted-Granted :
    (grant : Option Grant) (uid : ℕ) (requested allowed : List Capability)
    → strictly_ordered requested ≡ true
    → granted grant uid requested ≡ some allowed
    → Granted grant uid requested allowed
unfolding granted
granted-Granted none uid requested allowed ordered found = absurd cc
granted-Granted (some entry) uid requested allowed ordered found =
    elim (Bool-cases (entry.uid == uid)) [
      | inr other ↦ absurd (cc (rw other at found))
      | inl own ↦
          let is = some_lem (rw own at found) in
          rw (← is) (record {
            entry = entry;
            configured = refl;
            owner = (==_iff entry.uid uid).0 own;
            exact = keep-Mem entry.capabilities requested;
            ordered = (strictly_ordered_iff (keep entry.capabilities requested)).1 (
                keep-Ascending entry.capabilities requested
                  ((strictly_ordered_iff requested).0 ordered));
            short = keep-length entry.capabilities requested;
          })
    ]
  where
    some_lem : {a b : List Capability} → some a ≡ some b → a ≡ b
    some_lem same = cc
