-- ===== src/Devices/Inherited/Exact.antt =====
-- The adopted descriptors of crates/agent-seat-activity-broker/src/inherited_files.rs against the
-- announced ones.
use agent_seat_proto.Prelude.{
  ℕ, suc, ◌+◌, ◌<◌, ◌≤◌, ◌≡◌, refl, sym, ap, ◌∙◌, arith, Bool, true, false, not, ◌||◌, ◌==◌, ltb,
  List, [], ◌∷◌, map, some, length, length-drop, any, drop, All, All-drop, ok, >>=-eq-ok, ok_or,
  ok_or-eq-ok, Bool-cases, inl, inr,
}
use agent_seat_proto.Prelude.Decimal.{parse_usize}
use agent_seat_proto.Prelude.Split.{split}
use agent_seat_proto.Devices.Inherited.{
  InheritedFile, missing, malformed, Activation, bad_name, validate_names, checked_add, adopt,
  receive_named, receive_inherited_files,
}

-- The files pair the received descriptors, in their order, with the announced names that the standard
-- streams leave; no name is empty, longer than 255 bytes, or holds a control byte.
pub record Exact (maximum consumed : ℕ) (a : Activation) (files : List InheritedFile) : Type 0 where
  pub announced : ℕ
  pub names : List ℕ
  pub count_read :
      (text : List ℕ) × (a.listen_fds ≡ some text) × (parse_usize text ≡ some announced)
  pub names_read : a.listen_fdnames ≡ some names
  pub some_announced : 0 < announced
  pub few_announced : announced ≤ maximum
  pub whole : length files ≡ announced
  pub descriptors : a.received ≡ some (map (λ f. f.descriptor) files)
  pub named : drop consumed (split b':' names) ≡ map (λ f. f.name) files
  pub proper : All (λ f. bad_name f.name ≡ false) files
  pub confined : All (λ f. a.confine f.descriptor ≡ true) files

none_bad :
    (names : List (List ℕ)) → any bad_name names ≡ false → All (λ n. bad_name n ≡ false) names
none_bad [] h = tt
none_bad (n ∷ names) h = ground (arith, none_bad names)

-- What `adopt` gives for as many names as descriptors.
record Adopted (confine : ℕ → Bool) (descriptors : List ℕ) (names : List (List ℕ))
    (files : List InheritedFile) : Type 0 where
  taken : descriptors ≡ map (λ f. f.descriptor) files
  named : names ≡ map (λ f. f.name) files
  whole : length files ≡ length descriptors
  confined : All (λ f. confine f.descriptor ≡ true) files

adopt-Adopted :
    (confine : ℕ → Bool) (descriptors : List ℕ) (names : List (List ℕ)) (files : List InheritedFile)
    → length descriptors ≡ length names
    → adopt confine descriptors names ≡ ok files
    → Adopted confine descriptors names files
unfolding adopt
adopt-Adopted confine [] [] files same h =
    let none_left : [] ≡ files = cc in
    rw (← none_left) (record { taken = refl; named = refl; whole = refl; confined = tt })
adopt-Adopted confine [] (n ∷ names) files same h = absurd (omega arith)
adopt-Adopted confine (d ∷ descriptors) [] files same h = absurd (omega arith)
adopt-Adopted confine (d ∷ descriptors) (n ∷ names) files same h = elim (Bool-cases (confine d)) [
  | inr off ↦ absurd (cc (rw off at h))
  | inl on ↦
      let (rest, adopted, last) = >>=-eq-ok (adopt confine descriptors names) _ (rw on at h) in
      let later = adopt-Adopted confine descriptors names rest (omega arith) adopted in
      let whole : record { name = n; descriptor = d } ∷ rest ≡ files = cc in
      rw (← whole) (record {
        taken = ap (◌∷◌ d) later.taken;
        named = ap (◌∷◌ n) later.named;
        whole = ap suc later.whole;
        confined = (on, later.confined);
      })
]

validate_names_sound :
    (source : List ℕ) (count : ℕ) (valid : List (List ℕ))
    → validate_names source count ≡ ok valid
    → (split b':' source ≡ valid)
      × (length (split b':' source) ≡ count)
      × All (λ n. bad_name n ≡ false) (split b':' source)
unfolding validate_names
validate_names_sound source count valid h = elim (Bool-cases (count == 0)) [
  | inl zero_names ↦ absurd (cc (rw zero_names at h))
  | inr counted ↦
      elim (Bool-cases
        (not (length (split b':' source) == count) || any bad_name (split b':' source))) [
          | inl bad ↦ absurd (cc (rw (counted, bad) at h))
          | inr fine ↦ (
            cc (rw (counted, fine) at h),
            ground arith,
            none_bad (split b':' source) (ground arith),
          )
        ]
]

proper_of_named :
    (files : List InheritedFile)
    → All (λ n. bad_name n ≡ false) (map (λ f. f.name) files)
    → All (λ f. bad_name f.name ≡ false) files
proper_of_named [] h = tt
proper_of_named (f ∷ files) h = (h.0, proper_of_named files h.1)

checked_add_lem : (n m total : ℕ) → checked_add n m ≡ some total → total ≡ n + m
unfolding checked_add
checked_add_lem n m total h = ground arith

module _ (maximum consumed : ℕ) (a : Activation) (files : List InheritedFile) where
  receive_named-Exact :
      (text : List ℕ) (announced : ℕ)
      → a.listen_fds ≡ some text
      → parse_usize text ≡ some announced
      → 0 < announced
      → announced ≤ maximum
      → receive_named consumed a announced ≡ ok files
      → Exact maximum consumed a files
  unfolding receive_named checked_add
  receive_named-Exact text announced found parsed above below h =
      let (names, h1, r1) = >>=-eq-ok (ok_or a.listen_fdnames malformed) _ h in
      let (total, h2, r2) = >>=-eq-ok (ok_or (checked_add announced consumed) malformed) _ r1 in
      let (valid, h3, r3) = >>=-eq-ok (validate_names names total) _ r2 in
      let (received, h4, r4) = >>=-eq-ok (ok_or a.received malformed) _ r3 in
      let (same, many, proper) = validate_names_sound names total valid h3 in
      elim (Bool-cases (length received == announced)) [
        | inr off ↦ absurd (cc (rw off at r4))
        | inl on ↦
            let count : length received ≡ announced = ground arith in
            let sum : total ≡ announced + consumed =
              checked_add_lem announced consumed total
                (ok_or-eq-ok (checked_add announced consumed) malformed h2) in
            let left : drop consumed valid ≡ drop consumed (split b':' names) =
              ap (drop consumed) (sym same) in
            let adopted =
              adopt-Adopted a.confine received (drop consumed valid) files
                (rw left (omega (arith, length-drop consumed (split b':' names)))) (rw on at r4) in
            let named = sym left ∙ adopted.named in
            record {
              announced = announced;
              names = names;
              count_read = (text, found, parsed);
              names_read = ok_or-eq-ok a.listen_fdnames malformed h1;
              some_announced = above;
              few_announced = below;
              whole = adopted.whole ∙ count;
              descriptors = ok_or-eq-ok a.received malformed h4 ∙ ap (λ d. some d) adopted.taken;
              named = named;
              proper = proper_of_named files (
                  rw (← named)
                    (All-drop (λ n. bad_name n ≡ false) consumed (split b':' names) proper));
              confined = adopted.confined;
            }
      ]

  -- Descriptors that are adopted are between one and `maximum_count`, as many as announced, in the order
  -- in which they were received; their names are the announced ones after the first `consumed`, none
  -- of them empty, over 255 bytes or with a control byte, and all are closed on exec.
  pub receive_inherited_files-Exact :
      receive_inherited_files maximum consumed a ≡ ok files → Exact maximum consumed a files
  unfolding receive_inherited_files
  receive_inherited_files-Exact h =
      let (text, h1, r1) = >>=-eq-ok (ok_or a.listen_fds missing) _ h in
      let (announced, h2, r2) = >>=-eq-ok (ok_or (parse_usize text) malformed) _ r1 in
      elim (Bool-cases (announced == 0 || ltb maximum announced)) [
        | inl bad ↦ absurd (cc (rw bad at r2))
        | inr fine ↦
            receive_named-Exact text announced (ok_or-eq-ok a.listen_fds missing h1)
              (ok_or-eq-ok (parse_usize text) malformed h2) (ground arith) (ground arith)
              (rw fine at r2)
      ]
