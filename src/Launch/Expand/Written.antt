-- ===== src/Launch/Expand/Written.antt =====
-- A command line that is written out for `parse_exec` of crates/agent-seat-x11/src/launch.rs: the
-- words are printed, then the string is escaped as a value of a desktop entry.
use agent_seat_proto.Prelude.{
  ℕ, ◌+◌, ◌≡◌, ◌≤◌, ◌∙◌, refl, ap, arith, true, false, ◌==◌, if◌then◌else◌, Option, some, List, [],
  ◌∷◌, ◌++◌, map, length, is_empty, all, All, length-append, ltb-eq_false,
}
use mathlib.Core.List.{append_assoc, append-nil}
use agent_seat_proto.Prelude.Text.{Str, same}
use agent_seat_proto.Launch.Exec.{ExecWord, decode_string, onto}
use agent_seat_proto.Launch.Exec.Words.{is_word}
use agent_seat_proto.Launch.Exec.RoundTrip.{
  print_words, exec_words-print_words, is_empty-print_words,
}
use agent_seat_proto.Launch.Expand.{
  Environment, max_exec_arguments, contains, resolve_program, is_dropped_code, expand_literal,
  expand_word, expand_words, program_and_arguments, parse_exec, is_ascii,
}

unfoldable pub print_char : ℕ → Str
print_char c =
    if c == b'\\'
    then b'\\' ∷ b'\\' ∷ []
    else if c == b'\n'
    then b'\\' ∷ b'n' ∷ []
    else if c == b'\t'
    then b'\\' ∷ b't' ∷ []
    else if c == b'\r'
    then b'\\' ∷ b'r' ∷ []
    else c ∷ []

-- The characters with those escaped that a value cannot hold.
unfoldable pub print_string : Str → Str
unfolding print_char
print_string [] = []
print_string (c ∷ s) = print_char c ++ print_string s

decode_string-other :
    (c : ℕ) (rest : Str)
    → (c == b'\\') ≡ false
    → decode_string (c ∷ rest) ≡ onto c (decode_string rest)
unfolding decode_string
decode_string-other c [] h = ground arith
decode_string-other c (d ∷ rest) h = rw h refl

decode_string-escaped :
    (rest : Str)
    → (decode_string (b'\\' ∷ b'\\' ∷ rest) ≡ onto b'\\' (decode_string rest))
      × ((decode_string (b'\\' ∷ b'n' ∷ rest) ≡ onto b'\n' (decode_string rest))
          × ((decode_string (b'\\' ∷ b't' ∷ rest) ≡ onto b'\t' (decode_string rest))
              × (decode_string (b'\\' ∷ b'r' ∷ rest) ≡ onto b'\r' (decode_string rest))))
unfolding decode_string
decode_string-escaped rest = (refl, (refl, (refl, refl)))

decode_string-print_char :
    (c : ℕ) (rest : Str) → decode_string (print_char c ++ rest) ≡ onto c (decode_string rest)
unfolding print_char
decode_string-print_char c rest =
    ground (arith, decode_string-escaped rest, decode_string-other c rest)

decode_string-print_string : (s : Str) → decode_string (print_string s) ≡ some s
unfolding print_string
decode_string-print_string [] = unfold decode_string in refl
decode_string-print_string (c ∷ s) =
    decode_string-print_char c (print_string s) ∙ ap (onto c) (decode_string-print_string s)

expand_literal_same : (s : Str) → contains b'%' s ≡ false → expand_literal s ≡ some s
unfolding expand_literal
expand_literal_same [] h = refl
expand_literal_same (c ∷ []) h = ground arith
expand_literal_same (c ∷ d ∷ rest) h = ground (arith, expand_literal_same (d ∷ rest))

same_percentless : (text code : Str) → contains b'%' text ≡ false → same text (b'%' ∷ code) ≡ false
unfolding same
same_percentless [] code h = refl
same_percentless (c ∷ text) code h = ground arith

is_dropped_code_percentless :
    (text : Str) → contains b'%' text ≡ false → is_dropped_code text ≡ false
is_dropped_code_percentless text h =
    let no = λ (c : ℕ). same_percentless text (c ∷ []) h in
    rw (no b'f', no b'F', no b'u', no b'U', no b'd', no b'D', no b'n', no b'N', no b'v', no b'm')
      refl

expand_word_same :
    (w : ExecWord) (name : Str) (path icon : Option Str)
    → contains b'%' w.text ≡ false
    → expand_word w name path icon ≡ some (w.text ∷ [])
unfolding expand_word
expand_word_same w name path icon h =
    let no = λ (c : ℕ). same_percentless w.text (c ∷ []) h in
    rw
      (
        is_dropped_code_percentless w.text h,
        no b'i',
        no b'c',
        no b'k',
        expand_literal_same w.text h,
      )
      (ground (arith, h))

abbrev text_of : ExecWord → Str
text_of w = w.text

expand_words_same :
    (before : List Str) (ws : List ExecWord) (name : Str) (path icon : Option Str)
    → All (λ w. contains b'%' w.text ≡ false) ws
    → length before + length ws ≤ max_exec_arguments
    → expand_words before ws name path icon ≡ some (before ++ map text_of ws)
unfolding expand_words
expand_words_same before [] name path icon h fits = rw (append-nil before) refl
expand_words_same before (w ∷ ws) name path icon h fits =
    let longer = length-append before (w.text ∷ []) in
    let within = ltb-eq_false max_exec_arguments (length (before ++ w.text ∷ [])) (omega arith) in
    rw (expand_word_same w name path icon h.0, within)
      (expand_words_same (before ++ w.text ∷ []) ws name path icon h.1 (omega arith)
        ∙ ap some (append_assoc before (w.text ∷ []) (map text_of ws)))

is_empty-print_string : (s : Str) → is_empty s ≡ false → is_empty (print_string s) ≡ false
unfolding print_string print_char
is_empty-print_string [] h = absurd cc
is_empty-print_string (c ∷ s) h = ground arith

-- A command line whose words are written out and hold no percent sign starts what it names: its
-- first word as `resolve_program` finds it, with the texts of the others as the arguments. The
-- words are of ASCII and at most 128, the first is not empty and holds no equals sign.
pub parse_exec-written :
    (env : Environment) (w : ExecWord) (rest : List ExecWord) (name : Str) (path icon : Option Str)
    (program : List ℕ)
    → all is_word (w ∷ rest) ≡ true
    → All (λ v. contains b'%' v.text ≡ false) (w ∷ rest)
    → length (w ∷ rest) ≤ max_exec_arguments
    → is_ascii (print_string (print_words (w ∷ rest))) ≡ true
    → is_empty w.text ≡ false
    → contains b'=' w.text ≡ false
    → resolve_program env w.text ≡ some program
    → parse_exec env (print_string (print_words (w ∷ rest))) name path icon
      ≡ some (program, map (λ v. v.text) rest)
unfolding parse_exec program_and_arguments
parse_exec-written env w rest name path icon program words percentless fits ascii named clean
      found =
    let printed = print_words (w ∷ rest) in
    let nonempty = is_empty-print_string printed (is_empty-print_words w rest (ground arith)) in
    rw
      (
        nonempty,
        ascii,
        decode_string-print_string printed,
        exec_words-print_words w rest words,
        expand_words_same [] (w ∷ rest) name path icon percentless (omega arith),
        named,
        clean,
        found,
      )
      refl
