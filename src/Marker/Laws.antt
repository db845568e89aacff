-- ===== src/Marker/Laws.antt =====
-- Markers of crates/agent-seat-x11/src/active.rs, written and read.
use agent_seat_proto.Prelude.{
  ℕ, zero, suc, ◌+◌, ◌-◌, ◌^◌, ◌≤◌, ◌<◌, ◌≡◌, refl, ap, arith, String, true, false, ltb, ==_self,
  List, [], ◌∷◌, ◌++◌, length, take, drop, length-append, take-append, drop-append, Result, ok,
  some, Bool-cases, inl, inr,
}
use agent_seat_proto.Prelude.Text.{same}
use agent_seat_proto.Prelude.Bytes.{to_le_bytes, from_le_bytes-to_le_bytes}
use agent_seat_proto.Marker.{
  marker_magic, header_bytes, max_policy_path_bytes, max_config_bytes, max_marker_bytes,
  marker_body, read_u32, checked_add, read_fields, read_bytes, read_marker,
}

take_long : (n : ℕ) (xs : List ℕ) → length xs ≤ n → take n xs ≡ xs
take_long n [] short = nil_lem n
  where
    nil_lem : (k : ℕ) → take {A = ℕ} k [] ≡ []
    nil_lem zero = refl
    nil_lem (suc k) = refl
take_long zero (x ∷ xs) short = absurd (omega arith)
take_long (suc n) (x ∷ xs) short = ap (◌∷◌ x) (take_long n xs (omega arith))

unfoldable layout : ℕ → List ℕ → List ℕ → List ℕ
layout pid path source =
    marker_magic
    ++ (to_le_bytes 4 pid
        ++ (to_le_bytes 4 (length path) ++ (to_le_bytes 4 (length source) ++ (path ++ source))))

length-layout :
    (pid : ℕ) (path source : List ℕ)
    → length (layout pid path source) ≡ 28 + (length path + length source)
unfolding layout to_le_bytes
length-layout pid path source = omega (arith, length-append path source)

magic_layout :
    (pid : ℕ) (path source : List ℕ) → same (take 16 (layout pid path source)) marker_magic ≡ true
unfolding layout to_le_bytes same
magic_layout pid path source = refl

pid_layout :
    (pid : ℕ) (path source : List ℕ) → take 4 (drop 16 (layout pid path source)) ≡ to_le_bytes 4 pid
unfolding layout to_le_bytes
pid_layout pid path source = refl

path_layout :
    (pid : ℕ) (path source : List ℕ)
    → take 4 (drop 20 (layout pid path source)) ≡ to_le_bytes 4 (length path)
unfolding layout to_le_bytes
path_layout pid path source = refl

source_layout :
    (pid : ℕ) (path source : List ℕ)
    → take 4 (drop 24 (layout pid path source)) ≡ to_le_bytes 4 (length source)
unfolding layout to_le_bytes
source_layout pid path source = refl

rest_layout : (pid : ℕ) (path source : List ℕ) → drop 28 (layout pid path source) ≡ path ++ source
unfolding layout to_le_bytes
rest_layout pid path source = refl

ltb_no : (a b : ℕ) → b ≤ a → ltb a b ≡ false
ltb_no a b le = ground arith

read_u32-field :
    (bytes : List ℕ) (offset n : ℕ)
    → offset + 4 ≤ length bytes
    → n < 2 ^ 32
    → take 4 (drop offset bytes) ≡ to_le_bytes 4 n
    → read_u32 bytes offset ≡ ok n
unfolding read_u32
read_u32-field bytes offset n long small is =
    rw (ltb_no (length bytes) (offset + 4) long, is, from_le_bytes-to_le_bytes 4 n (omega arith))
      refl

checked_add-small : (a b : ℕ) → a + b < 2 ^ 64 → checked_add a b ≡ some (a + b)
unfolding checked_add
checked_add-small a b small = ground arith

module _ (pid : ℕ) (path source : List ℕ) (pid_small : pid < 2 ^ 32)
    (path_short : length path ≤ max_policy_path_bytes)
    (source_short : length source ≤ max_config_bytes) where
  total : header_bytes + length path + length source ≡ length (layout pid path source)
  total = omega (arith, length-layout pid path source)

  fields_layout :
      read_fields (layout pid path source) pid (length path) (length source)
      ≡ ok (record { pid = pid; path = path; source = source })
  unfolding read_fields
  fields_layout =
      rw
        (
          checked_add-small header_bytes (length path) (omega arith),
          checked_add-small (header_bytes + length path) (length source) (omega arith),
          ltb_no max_policy_path_bytes (length path) path_short,
          ltb_no max_config_bytes (length source) source_short,
          total,
          ==_self (length (layout pid path source)),
          rest_layout pid path source,
          take-append path source,
          drop-append path source,
        )
        refl

  bytes_layout :
      read_bytes (layout pid path source) ≡ ok (record { pid = pid; path = path; source = source })
  unfolding read_bytes
  bytes_layout =
      let long = length-layout pid path source in
      rw
        (
          ltb_no max_marker_bytes (length (layout pid path source)) (omega arith),
          ltb_no (length (layout pid path source)) header_bytes (omega arith),
          magic_layout pid path source,
          read_u32-field (layout pid path source) 16 pid (omega arith) pid_small
              (pid_layout pid path source),
          read_u32-field (layout pid path source) 20 (length path) (omega arith) (omega arith)
              (path_layout pid path source),
          read_u32-field (layout pid path source) 24 (length source) (omega arith) (omega arith)
              (source_layout pid path source),
        )
        fields_layout

marker_body-layout :
    (pid : ℕ) (path source body : List ℕ)
    → marker_body pid path source ≡ ok body
    → (length path ≤ max_policy_path_bytes) × (layout pid path source ≡ body)
unfolding marker_body layout
marker_body-layout pid path source body made =
    elim (Bool-cases (ltb max_policy_path_bytes (length path))) [
      | inl long ↦ absurd (cc (rw long at made))
      | inr short ↦ elim (Bool-cases (ltb (2 ^ 32 - 1) (length path))) [
        | inl huge ↦ absurd (cc (rw (short, huge) at made))
        | inr fits ↦ elim (Bool-cases (ltb (2 ^ 32 - 1) (length source))) [
          | inl huge ↦ absurd (cc (rw (short, fits, huge) at made))
          | inr small ↦ (ground arith, body_lem (rw (short, fits, small) at made))
        ]
      ]
    ]
  where
    body_lem :
        ◌≡◌ {A = Result String (List ℕ)} (ok (layout pid path source)) (ok body)
        → layout pid path source ≡ body
    body_lem same = cc

-- A marker that a process writes, for a policy no longer than the configuration bound, is read back
-- from the file: the process, the path and the text of the policy.
pub read_marker-marker_body :
    (pid : ℕ) (path source body : List ℕ)
    → pid < 2 ^ 32
    → length source ≤ max_config_bytes
    → marker_body pid path source ≡ ok body
    → read_marker body ≡ ok (record { pid = pid; path = path; source = source })
unfolding read_marker
read_marker-marker_body pid path source body pid_small source_short made =
    let (path_short, is) = marker_body-layout pid path source body made in
    let long = length-layout pid path source in
    rw (← is, take_long (max_marker_bytes + 1) (layout pid path source) (omega arith))
      (bytes_layout pid path source pid_small path_short source_short)
