-- ===== src/Launch/Entry/Keys.antt =====
-- The keys that `parse_desktop` of crates/agent-seat-x11/src/launch.rs reads.
use agent_seat_proto.Prelude.{
  ◌≡◌, ◌≤◌, arith, true, not, ◌&&◌, ◌||◌, ◌==◌, none, some, List, [], ◌∷◌, length, is_empty, any,
  All, and_then-eq-some, Bool-cases, Option-cases, inl, inr,
}
use agent_seat_proto.Prelude.Text.{Str}
use agent_seat_proto.Prelude.Split.{split_once}
use agent_seat_proto.Launch.Entry.{
  Values, get, is_control, trim, strip_last, lines, starts_with, valid_key, max_entry_keys, Parsing,
  open_group, insert, parse_line, parse_lines, start, finish, parse_desktop,
}

-- No key stands twice.
abbrev pub Distinct : Values → Type 0
Distinct [] = Unit
Distinct ((key, value) ∷ rest) = (get key rest ≡ none) × Distinct rest

pub record Keyed (values : Values) : Type 0 where
  pub valid : All (λ entry. valid_key entry.0 ≡ true) values
  pub distinct : Distinct values
  pub bounded : length values ≤ max_entry_keys

open_group-values : (p q : Parsing) (line : Str) → open_group p line ≡ some q → q.values ≡ p.values
unfolding open_group
open_group-values p q line h = ground arith

insert-Keyed :
    (p q : Parsing) (entry : Str × Str) → Keyed p.values → insert p entry ≡ some q → Keyed q.values
insert-Keyed p q (key, value) inv h =
    let fits = inv.bounded in
    elim (Bool-cases (valid_key (trim key))) [
      | inr bad ↦ absurd (cc (rw bad at h))
      | inl valid ↦ elim (Bool-cases (length p.values == max_entry_keys)) [
        | inl full ↦ absurd (cc (rw (valid, full) at h))
        | inr room ↦ elim (Option-cases (get (trim key) p.values)) [
          | inr (old, there) ↦ absurd (cc (rw (valid, room, there) at h))
          | inl fresh ↦
              let inserted : record p { values = (trim key, trim value) ∷ p.values } ≡ q =
                cc (rw (valid, room, fresh) at h) in
              rw (← inserted) (record {
                valid = (valid, inv.valid);
                distinct = (fresh, inv.distinct);
                bounded = ground (arith, fits, room);
              })
        ]
      ]
    ]

parse_line-Keyed :
    (p q : Parsing) (line : Str) → Keyed p.values → parse_line p line ≡ some q → Keyed q.values
unfolding parse_line
parse_line-Keyed p q line inv h = elim (Bool-cases (is_empty line || starts_with b'#' line)) [
  | inl skipped ↦ let e : p ≡ q = cc (rw skipped at h) in rw (← e) inv
  | inr full ↦ elim (Bool-cases (starts_with b'[' line)) [
    | inl group ↦ rw (open_group-values p q line (rw (full, group) at h)) inv
    | inr entry ↦ elim (Bool-cases p.found_desktop_entry) [
      | inr before ↦ absurd (cc (rw (full, entry, before) at h))
      | inl found ↦ elim (Bool-cases p.in_desktop_entry) [
        | inr other ↦ let e : p ≡ q = cc (rw (full, entry, found, other) at h) in rw (← e) inv
        | inl inside ↦
            let (parts, _, last) =
              and_then-eq-some (split_once b'=' line) _ (rw (full, entry, found, inside) at h) in
            insert-Keyed (record p { in_desktop_entry = true; found_desktop_entry = true }) q parts
              inv last
      ]
    ]
  ]
]

parse_lines-Keyed :
    (p q : Parsing) (ls : List Str) → Keyed p.values → parse_lines p ls ≡ some q → Keyed q.values
unfolding parse_lines
parse_lines-Keyed p q [] inv h = let e : p ≡ q = cc in rw (← e) inv
parse_lines-Keyed p q (raw ∷ rest) inv h =
    let (r, first, last) = and_then-eq-some (parse_line p (strip_last b'\r' raw)) _ h in
    parse_lines-Keyed r q rest (parse_line-Keyed p r (strip_last b'\r' raw) inv first) last

finish-Keyed :
    (p : Parsing) (values : Values) → Keyed p.values → finish p ≡ some values → Keyed values
finish-Keyed p values inv h = elim (Bool-cases p.found_desktop_entry) [
  | inl found ↦ let e : p.values ≡ values = cc (rw found at h) in rw (← e) inv
  | inr missing ↦ absurd (cc (rw missing at h))
]

-- Whatever text is read, the keys that come of it are valid, no two are the same, and they are at
-- most 256.
pub parse_desktop-Keyed :
    (source : Str) (values : Values) → parse_desktop source ≡ some values → Keyed values
unfolding parse_desktop
parse_desktop-Keyed source values h =
    elim (Bool-cases (any (λ c. is_control c && not (c == b'\n' || c == b'\r')) source)) [
      | inl control ↦ absurd (cc (rw control at h))
      | inr text ↦
          let (p, parsed, last) =
            and_then-eq-some (parse_lines start (lines source)) finish (rw text at h) in
          let start_Keyed : Keyed start.values = record {
            valid = tt;
            distinct = tt;
            bounded = omega arith;
          } in
          finish-Keyed p values (parse_lines-Keyed start p (lines source) start_Keyed parsed) last
    ]
