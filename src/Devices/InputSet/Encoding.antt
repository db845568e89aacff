-- ===== src/Devices/InputSet/Encoding.antt =====
-- The text of a manifest of crates/agent-seat-activity-broker/src/initial_input_set.rs, as its
-- lines.
use agent_seat_proto.Prelude.{
  ℕ, ◌≤◌, ◌≡◌, ◌↔◌, refl, sym, ◌∙◌, arith, true, false, ◌==◌, ltb, List, [], ◌∷◌, ◌++◌, map, length,
  All, All-append, ok, ltb-eq_false, length-append, Bool-cases, inl, inr, >>-eq-ok,
}
use mathlib.Core.List.{append-nil}
use agent_seat_proto.Prelude.Utf8.{is_utf8, is_utf8-append, is_utf8-ascii}
use agent_seat_proto.Prelude.Split.{regroup, Lacks, terminated}
use agent_seat_proto.Devices.InputSet.{
  InputClassMapping, header_line, header, event_name, line, push_mappings, contains,
  encode_input_set, max_input_set_bytes, valid_sysfs_path, validate_order,
}
use agent_seat_proto.Devices.InputSet.Names.{event_name-Lacks_newline, event_name_ascii}
use agent_seat_proto.Devices.InputSet.Order.{IsValidPath, Ordered, validate_order_iff}

Lacks-contains : (b : ℕ) (s : List ℕ) → contains b s ≡ false → Lacks b s
Lacks-contains b [] h = tt
Lacks-contains b (c ∷ s) h = ground (arith, Lacks-contains b s)

-- What a valid path holds and lacks.
pub record Writable (path : List ℕ) : Type 0 where
  pub text : is_utf8 path ≡ true
  pub no_tab : Lacks b'\t' path
  pub no_newline : Lacks b'\n' path

pub IsValidPath-Writable : (m : InputClassMapping) → IsValidPath m → Writable m.sysfs_path
unfolding valid_sysfs_path
IsValidPath-Writable m h = elim (Bool-cases (is_utf8 m.sysfs_path)) [
  | inr off ↦ absurd (cc (rw off at h))
  | inl on ↦ record {
    text = on;
    no_tab = Lacks-contains b'\t' m.sysfs_path (ground arith);
    no_newline = Lacks-contains b'\n' m.sysfs_path (ground arith);
  }
]

pub line-Lacks_newline : (m : InputClassMapping) → IsValidPath m → Lacks b'\n' (line m)
unfolding line
line-Lacks_newline m valid =
    All-append (λ c. (c == b'\n') ≡ false) (event_name m.event_number) (b'\t' ∷ m.sysfs_path)
      (event_name-Lacks_newline m.event_number) (refl, (IsValidPath-Writable m valid).no_newline)

line_utf8 : (m : InputClassMapping) → is_utf8 m.sysfs_path ≡ true → is_utf8 (line m) ≡ true
unfolding line
line_utf8 m text =
    is_utf8-append (event_name m.event_number) (b'\t' ∷ m.sysfs_path)
      (is_utf8-ascii (event_name m.event_number) (event_name_ascii m.event_number))
      (is_utf8-append (b'\t' ∷ []) m.sysfs_path (is_utf8-ascii (b'\t' ∷ []) (refl, tt)) text)

pub lines_Lack :
    (ms : List InputClassMapping) → All IsValidPath ms → All (Lacks b'\n') (map line ms)
lines_Lack [] h = tt
lines_Lack (m ∷ ms) h = (line-Lacks_newline m h.0, lines_Lack ms h.1)

pub lines_utf8 :
    (ms : List InputClassMapping) → All IsValidPath ms → All (λ p. is_utf8 p ≡ true) (map line ms)
lines_utf8 [] h = tt
lines_utf8 (m ∷ ms) h = (line_utf8 m (IsValidPath-Writable m h.0).text, lines_utf8 ms h.1)

-- The text that a set of lines spells behind `output`.
push_mappings_sound :
    (ms : List InputClassMapping) (output bytes : List ℕ)
    → length output ≤ max_input_set_bytes
    → push_mappings output ms ≡ ok bytes
    → (bytes ≡ output ++ terminated b'\n' (map line ms)) × (length bytes ≤ max_input_set_bytes)
unfolding push_mappings terminated
push_mappings_sound [] output bytes fits h =
    let same : output ≡ bytes = cc in (sym same ∙ sym (append-nil output), rw (← same) fits)
push_mappings_sound (m ∷ ms) output bytes fits h = elim (Bool-cases (is_utf8 m.sysfs_path)) [
  | inr off ↦ absurd (cc (rw off at h))
  | inl on ↦
      elim (Bool-cases (ltb max_input_set_bytes (length (output ++ (line m ++ b'\n' ∷ []))))) [
        | inl large ↦ absurd (cc (rw (on, large) at h))
        | inr small ↦ rw (← regroup b'\n' output (line m) (terminated b'\n' (map line ms))) (
            push_mappings_sound ms (output ++ (line m ++ b'\n' ∷ [])) bytes (ground arith)
              (rw (on, small) at h))
      ]
]

push_mappings_complete :
    (ms : List InputClassMapping) (output : List ℕ)
    → All IsValidPath ms
    → length (output ++ terminated b'\n' (map line ms)) ≤ max_input_set_bytes
    → push_mappings output ms ≡ ok (output ++ terminated b'\n' (map line ms))
unfolding push_mappings terminated
push_mappings_complete [] output h fits = rw append-nil refl
push_mappings_complete (m ∷ ms) output h fits =
    let next = output ++ (line m ++ b'\n' ∷ []) in
    let same = regroup b'\n' output (line m) (terminated b'\n' (map line ms)) in
    let within = rw (← same) at fits in
    rw
      (
        (IsValidPath-Writable m h.0).text,
        ltb-eq_false max_input_set_bytes (length next)
            (omega (arith, within, length-append next (terminated b'\n' (map line ms)))),
        ← same,
      )
      (push_mappings_complete ms next h.1 within)

terminated-header :
    (ms : List InputClassMapping)
    → header ++ terminated b'\n' (map line ms) ≡ terminated b'\n' (header_line ∷ map line ms)
unfolding terminated
terminated-header ms = refl

-- What an encoded manifest is.
pub record Manifest (ms : List InputClassMapping) (bytes : List ℕ) : Type 0 where
  pub ordered : Ordered ms
  pub spelled : bytes ≡ terminated b'\n' (header_line ∷ map line ms)
  pub within : length bytes ≤ max_input_set_bytes

pub encode_input_set_iff :
    (ms : List InputClassMapping) (bytes : List ℕ)
    → (encode_input_set ms ≡ ok bytes) ↔ Manifest ms bytes
unfolding encode_input_set
encode_input_set_iff ms bytes = (
  λ h.
      let (order, pushed) = >>-eq-ok (validate_order ms) (push_mappings header ms) h in
      let (spelled, within) = push_mappings_sound ms header bytes (omega arith) pushed in
      record {
        ordered = (validate_order_iff ms).0 order;
        spelled = spelled ∙ terminated-header ms;
        within = within;
      },
  λ manifest.
      let whole = manifest.spelled ∙ sym (terminated-header ms) in
      rw ((validate_order_iff ms).1 manifest.ordered, whole)
        (push_mappings_complete ms header manifest.ordered.paths (rw whole at manifest.within)),
)
