-- ===== src/Launch/Exec/Words.antt =====
-- Which words `exec_words` of crates/agent-seat-x11/src/launch.rs makes of a command line.
use agent_seat_proto.Prelude.{
  ℕ, ◌≡◌, refl, arith, Bool, true, false, not, ◌&&◌, ◌||◌, ◌==◌, Option, none, some, List, [], ◌∷◌,
  ◌++◌, is_empty, all, and_then, and_then-eq-some, Bool-cases, inl, inr,
}
use agent_seat_proto.Prelude.Text.{Str}
use agent_seat_proto.Launch.Exec.{
  ExecWord, Lexer, is_ascii_whitespace, is_exec_reserved, lex, finish, lex_all, start, exec_words,
  word,
}

-- A character that may stand outside of quotation marks within a word.
abbrev pub is_plain : ℕ → Bool
is_plain c =
    not (is_ascii_whitespace c)
    && (not (is_exec_reserved c) && (not (c == b'"') && not (c == b'\\')))

-- A word in quotation marks, or a word of plain characters only.
abbrev pub is_word : ExecWord → Bool
is_word w = w.quoted || (not (is_empty w.text) && all is_plain w.text)

pub all-push {ℓ} :
    {A : Type ℓ} (p : A → Bool) (xs : List A) (y : A) → all p (xs ++ y ∷ []) ≡ (all p xs && p y)
all-push p [] y = ground arith
all-push p (x ∷ xs) y = ground (arith, all-push p xs y)

pub is_empty-push {ℓ} : {A : Type ℓ} (xs : List A) (y : A) → is_empty (xs ++ y ∷ []) ≡ false
is_empty-push [] y = refl
is_empty-push (x ∷ xs) y = refl

-- What the loop keeps: the finished words are words, the one in progress will be.
record Lexing (l : Lexer) : Type 0 where
  words : all is_word l.words ≡ true
  text : (l.word_quoted || all is_plain l.text) ≡ true
  present : (not l.present || (l.word_quoted || not (is_empty l.text))) ≡ true
  quoted : (not l.quoted || l.word_quoted) ≡ true

lex-Lexing : (l m : Lexer) (c : ℕ) (next : Option ℕ) → Lexing l → lex l c next ≡ some m → Lexing m
unfolding lex
lex-Lexing l m c next inv h =
    let pushed = all-push is_word l.words (word l) in
    let longer = all-push is_plain l.text c in
    let nonempty = is_empty-push l.text c in
    let a = inv.words in
    let b = inv.text in
    let e = inv.present in
    let f = inv.quoted in
    record {
      words = ground arith;
      text = ground arith;
      present = ground arith;
      quoted = ground arith;
    }

finish_words :
    (l : Lexer) (ws : List ExecWord)
    → Lexing l
    → finish l ≡ some ws
    → (is_empty ws ≡ false) × (all is_word ws ≡ true)
unfolding finish
finish_words l ws inv h =
    let pushed = all-push is_word l.words (word l) in
    let nonempty = is_empty-push l.words (word l) in
    let a = inv.words in let b = inv.text in let e = inv.present in ground arith

pub lex_all-escape :
    (l : Lexer) (c d : ℕ) (rest : Str)
    → (c == b'\\') ≡ true
    → lex_all l (c ∷ d ∷ rest) ≡ and_then (lex l c (some d)) (λ m. lex_all m rest)
unfolding lex_all
lex_all-escape l c d rest h = rw h refl

pub lex_all-other :
    (l : Lexer) (c : ℕ) (rest : Str)
    → (c == b'\\') ≡ false
    → lex_all l (c ∷ rest) ≡ and_then (lex l c none) (λ m. lex_all m rest)
unfolding lex_all
lex_all-other l c [] h = refl
lex_all-other l c (d ∷ rest) h = rw h refl

lex_all-last :
    (l : Lexer) (c : ℕ) {ws : List ExecWord}
    → lex_all l (c ∷ []) ≡ some ws
    → and_then (lex l c none) finish ≡ some ws
unfolding lex_all
lex_all-last l c h = h

lex_all_words :
    (l : Lexer) (s : Str) (ws : List ExecWord)
    → Lexing l
    → lex_all l s ≡ some ws
    → (is_empty ws ≡ false) × (all is_word ws ≡ true)
lex_all_words l [] ws inv h = finish_words l ws inv (unfold lex_all in h)
lex_all_words l (c ∷ []) ws inv h =
    let (m, step, done) = and_then-eq-some (lex l c none) finish (lex_all-last l c h) in
    finish_words m ws (lex-Lexing l m c none inv step) done
lex_all_words l (c ∷ d ∷ rest) ws inv h = elim (Bool-cases (c == b'\\')) [
  | inl escape ↦
      let (m, step, done) =
        and_then-eq-some (lex l c (some d)) (λ m. lex_all m rest)
          (rw (lex_all-escape l c d rest escape) at h) in
      lex_all_words m rest ws (lex-Lexing l m c (some d) inv step) done
  | inr other ↦
      let (m, step, done) =
        and_then-eq-some (lex l c none) (λ m. lex_all m (d ∷ rest))
          (rw (lex_all-other l c (d ∷ rest) other) at h) in
      lex_all_words m (d ∷ rest) ws (lex-Lexing l m c none inv step) done
]

start-Lexing : Lexing start
start-Lexing = record { words = refl; text = refl; present = refl; quoted = refl }

-- A command line that is accepted has at least one word, and each of them stood in quotation marks
-- or is not empty and holds no whitespace, quotation mark, backslash or reserved character.
pub exec_words-Words :
    (value : Str) (ws : List ExecWord)
    → exec_words value ≡ some ws
    → (is_empty ws ≡ false) × (all is_word ws ≡ true)
exec_words-Words value ws h = lex_all_words start value ws start-Lexing (unfold exec_words in h)
