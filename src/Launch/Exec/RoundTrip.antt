-- ===== src/Launch/Exec/RoundTrip.antt =====
-- Command lines and strings that are written out for crates/agent-seat-x11/src/launch.rs, and what
-- it reads of them.
use agent_seat_proto.Prelude.{
  ℕ, ◌≡◌, ◌∙◌, refl, sym, ap, arith, Bool, true, false, ◌==◌, if◌then◌else◌, none, some, List, [],
  ◌∷◌, ◌++◌, is_empty, all, and_then, Bool-cases, inl, inr,
}
use mathlib.Core.List.{append_assoc, append-nil}
use agent_seat_proto.Prelude.Text.{Str}
use agent_seat_proto.Launch.Exec.{
  ExecWord, Lexer, is_quote_escape, lex, finish, lex_all, exec_words,
}
use agent_seat_proto.Launch.Exec.Words.{
  is_plain, is_word, lex_all-other, lex_all-escape, is_empty-push,
}

-- The text of a word between quotation marks.
unfoldable pub print_quoted : Str → Str
print_quoted [] = []
print_quoted (c ∷ text) =
    if is_quote_escape c then b'\\' ∷ c ∷ print_quoted text else c ∷ print_quoted text

unfoldable pub print_word : ExecWord → Str
unfolding print_quoted
print_word w = if w.quoted then b'"' ∷ (print_quoted w.text ++ b'"' ∷ []) else w.text

-- The words with a space between any two.
unfoldable pub print_words : List ExecWord → Str
unfolding print_word
print_words [] = []
print_words (w ∷ []) = print_word w
print_words (w ∷ v ∷ rest) = print_word w ++ b' ' ∷ print_words (v ∷ rest)

-- The loop within a word, or between words.
abbrev within : List ExecWord → Str → Bool → Bool → Bool → Bool → Lexer
within words text quoted word_quoted present closed_quote = record {
  words = words;
  text = text;
  quoted = quoted;
  word_quoted = word_quoted;
  present = present;
  closed_quote = closed_quote;
}

lex-plain :
    (ws : List ExecWord) (text : Str) (present : Bool) (c : ℕ)
    → is_plain c ≡ true
    → lex (within ws text false false present false) c none
      ≡ some (within ws (text ++ c ∷ []) false false true false)
unfolding lex
lex-plain ws text present c h = ground arith

regroup_one :
    (ws : List ExecWord) (text : Str) (c : ℕ) (more rest : Str) (q p : Bool)
    → lex_all (within ws ((text ++ c ∷ []) ++ more) q q p false) rest
      ≡ lex_all (within ws (text ++ c ∷ more) q q p false) rest
regroup_one ws text c more rest q p =
    ap (λ t. lex_all (within ws t q q p false) rest) (append_assoc text (c ∷ []) more)

-- One character that is taken as it stands.
after_other :
    (l m : Lexer) (c : ℕ) (rest : Str)
    → (c == b'\\') ≡ false
    → lex l c none ≡ some m
    → lex_all l (c ∷ rest) ≡ lex_all m rest
after_other l m c rest other step =
    lex_all-other l c rest other ∙ ap (λ o. and_then o (λ n. lex_all n rest)) step

lex_all-plain :
    (ws : List ExecWord) (text : Str) (present : Bool) (c : ℕ) (more rest : Str)
    → all is_plain (c ∷ more) ≡ true
    → lex_all (within ws text false false present false) (c ∷ more ++ rest)
      ≡ lex_all (within ws (text ++ c ∷ more) false false true false) rest
lex_all-plain ws text present c [] rest h =
    after_other (within ws text false false present false) _ c rest (ground arith)
      (lex-plain ws text present c (ground arith))
lex_all-plain ws text present c (d ∷ more) rest h =
    after_other (within ws text false false present false) _ c (d ∷ more ++ rest) (ground arith)
      (lex-plain ws text present c (ground arith))
    ∙ lex_all-plain ws (text ++ c ∷ []) true d more rest (ground arith)
    ∙ regroup_one ws text c (d ∷ more) rest false true

lex-escaped :
    (ws : List ExecWord) (text : Str) (c : ℕ)
    → is_quote_escape c ≡ true
    → lex (within ws text true true true false) b'\\' (some c)
      ≡ some (within ws (text ++ c ∷ []) true true true false)
unfolding lex
lex-escaped ws text c h = ground arith

lex-unescaped :
    (ws : List ExecWord) (text : Str) (c : ℕ)
    → is_quote_escape c ≡ false
    → lex (within ws text true true true false) c none
      ≡ some (within ws (text ++ c ∷ []) true true true false)
unfolding lex
lex-unescaped ws text c h = ground arith

lex_all-quoted :
    (ws : List ExecWord) (text more rest : Str)
    → lex_all (within ws text true true true false) (print_quoted more ++ rest)
      ≡ lex_all (within ws (text ++ more) true true true false) rest
unfolding print_quoted
lex_all-quoted ws text [] rest = rw (append-nil text) refl
lex_all-quoted ws text (c ∷ more) rest =
    let later =
      lex_all-quoted ws (text ++ c ∷ []) more rest ∙ regroup_one ws text c more rest true true in
    let l = within ws text true true true false in
    elim (Bool-cases (is_quote_escape c)) [
      | inl escape ↦ rw escape (
          lex_all-escape l b'\\' c (print_quoted more ++ rest) refl
          ∙ ap (λ o. and_then o (λ n. lex_all n (print_quoted more ++ rest)))
              (lex-escaped ws text c escape)
          ∙ later)
      | inr other ↦ rw other (
          after_other l _ c (print_quoted more ++ rest) (ground arith)
            (lex-unescaped ws text c other)
          ∙ later)
    ]

-- The loop behind a word that is complete but for what follows it.
abbrev behind : List ExecWord → ExecWord → Lexer
behind ws w = within ws w.text false w.quoted true w.quoted

lex-open :
    (ws : List ExecWord)
    → lex (within ws [] false false false false) b'"' none
      ≡ some (within ws [] true true true false)
unfolding lex
lex-open ws = refl

lex-close :
    (ws : List ExecWord) (text : Str)
    → lex (within ws text true true true false) b'"' none
      ≡ some (within ws text false true true true)
unfolding lex
lex-close ws text = refl

lex_all-literal :
    (ws : List ExecWord) (text : Str) (quoted : Bool) (rest : Str)
    → is_word (record { text = text; quoted = quoted }) ≡ true
    → lex_all
        (within ws [] false false false false)
        (print_word (record { text = text; quoted = quoted }) ++ rest)
      ≡ lex_all (within ws text false quoted true quoted) rest
unfolding print_word
lex_all-literal ws text true rest h =
    after_other (within ws [] false false false false) _ b'"'
      ((print_quoted text ++ b'"' ∷ []) ++ rest) refl (lex-open ws)
    ∙ ap (lex_all (within ws [] true true true false))
        (append_assoc (print_quoted text) (b'"' ∷ []) rest)
    ∙ lex_all-quoted ws [] text (b'"' ∷ rest)
    ∙ after_other (within ws text true true true false) _ b'"' rest refl (lex-close ws text)
lex_all-literal ws [] false rest h = absurd (ground arith)
lex_all-literal ws (c ∷ text) false rest h = lex_all-plain ws [] false c text rest (ground arith)

lex_all-word :
    (ws : List ExecWord) (w : ExecWord) (rest : Str)
    → is_word w ≡ true
    → lex_all (within ws [] false false false false) (print_word w ++ rest)
      ≡ lex_all (behind ws w) rest
lex_all-word ws w rest h = lex_all-literal ws w.text w.quoted rest h

finish-behind : (ws : List ExecWord) (w : ExecWord) → finish (behind ws w) ≡ some (ws ++ w ∷ [])
unfolding finish
finish-behind ws w = ground (arith, is_empty-push ws w)

lex-space :
    (ws : List ExecWord) (w : ExecWord)
    → lex (behind ws w) b' ' none ≡ some (within (ws ++ w ∷ []) [] false false false false)
unfolding lex
lex-space ws w = ground arith

lex_all-end : (l : Lexer) → lex_all l [] ≡ finish l
unfolding lex_all
lex_all-end l = refl

lex_all-words :
    (ws : List ExecWord) (w : ExecWord) (rest : List ExecWord)
    → all is_word (w ∷ rest) ≡ true
    → lex_all (within ws [] false false false false) (print_words (w ∷ rest))
      ≡ some (ws ++ w ∷ rest)
unfolding print_words
lex_all-words ws w [] h =
    ap (lex_all (within ws [] false false false false)) (sym (append-nil (print_word w)))
    ∙ lex_all-word ws w [] (ground arith)
    ∙ lex_all-end (behind ws w)
    ∙ finish-behind ws w
lex_all-words ws w (v ∷ rest) h =
    lex_all-word ws w (b' ' ∷ print_words (v ∷ rest)) (ground arith)
    ∙ after_other (behind ws w) _ b' ' (print_words (v ∷ rest)) refl (lex-space ws w)
    ∙ lex_all-words (ws ++ w ∷ []) v rest (ground arith)
    ∙ ap some (append_assoc ws (w ∷ []) (v ∷ rest))

-- Words that are written out, those in quotation marks with a backslash where one is due and the
-- others of plain characters, are read again as the same words.
pub exec_words-print_words :
    (w : ExecWord) (rest : List ExecWord)
    → all is_word (w ∷ rest) ≡ true
    → exec_words (print_words (w ∷ rest)) ≡ some (w ∷ rest)
unfolding exec_words
exec_words-print_words w rest h = lex_all-words [] w rest h

is_empty-append : (s : Str) (t : Str) → is_empty s ≡ false → is_empty (s ++ t) ≡ false
is_empty-append [] t h = absurd cc
is_empty-append (c ∷ s) t h = refl

pub is_empty-print_words :
    (w : ExecWord) (rest : List ExecWord)
    → is_word w ≡ true
    → is_empty (print_words (w ∷ rest)) ≡ false
unfolding print_words print_word
is_empty-print_words w [] h = ground arith
is_empty-print_words w (v ∷ rest) h = ground (arith, is_empty-append (print_word w))
