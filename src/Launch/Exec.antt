-- ===== src/Launch/Exec.antt =====
-- The command line of a desktop entry: `decode_string` and `exec_words` of
-- crates/agent-seat-x11/src/launch.rs.
pub mod Words
pub mod RoundTrip
use agent_seat_proto.Prelude.{
  ℕ, Bool, true, false, not, ◌&&◌, ◌||◌, ◌==◌, if◌then◌else◌, choose, Option, none, some, List, [],
  ◌∷◌, ◌++◌, is_empty, any, and_then,
}
use agent_seat_proto.Prelude.Text.{Str, chars}

-- What a character behind a backslash stands for.
abbrev pub decode_escape : ℕ → Option ℕ
decode_escape c =
    if c == b's'
    then some b' '
    else if c == b'n'
    then some b'\n'
    else if c == b't'
    then some b'\t'
    else if c == b'r'
    then some b'\r'
    else if c == b'\\'
    then some b'\\'
    else none

abbrev pub onto : ℕ → Option Str → Option Str
onto c none = none
onto c (some s) = some (c ∷ s)

unfoldable pub decode_string : Str → Option Str
decode_string [] = some []
decode_string (c ∷ []) = if c == b'\\' then none else some (c ∷ [])
decode_string (c ∷ d ∷ rest) =
    choose (c == b'\\') (λ _. and_then (decode_escape d) (λ e. onto e (decode_string rest)))
      (λ _. onto c (decode_string (d ∷ rest)))

pub record ExecWord : Type 0 where
  pub text : Str
  pub quoted : Bool

-- The variables of the loop of `exec_words`.
pub record Lexer : Type 0 where
  pub words : List ExecWord
  pub text : Str
  pub quoted : Bool
  pub word_quoted : Bool
  pub present : Bool
  pub closed_quote : Bool

-- `char::is_ascii_whitespace`
abbrev pub is_ascii_whitespace : ℕ → Bool
is_ascii_whitespace c = c == b' ' || (c == b'\t' || (c == b'\n' || (c == 0x0c || c == b'\r')))

unfoldable pub is_exec_reserved : ℕ → Bool
is_exec_reserved c = any (λ r. c == r) (chars "'><~|&;$*?#()`")

abbrev pub is_quote_escape : ℕ → Bool
is_quote_escape c = c == b'"' || (c == b'`' || (c == b'$' || c == b'\\'))

-- `text.push(character)`
abbrev pub push : Lexer → ℕ → Lexer
push l c = record l { text = l.text ++ c ∷ []; present = true }

-- The branch of a quotation mark.
abbrev pub quote : Lexer → Option Lexer
quote l =
    if l.quoted
    then some (record l { quoted = false; closed_quote = true })
    else if l.present
    then none
    else some (record l { quoted = true; word_quoted = true; present = true })

-- The branch of a backslash, with what `characters.next()` returns.
abbrev pub escaped : Lexer → Option ℕ → Option Lexer
escaped l next =
    if not l.quoted
    then none
    else and_then next (λ c. if not (is_quote_escape c) then none else some (push l c))

abbrev pub word : Lexer → ExecWord
word l = record { text = l.text; quoted = l.word_quoted }

-- The branch of whitespace between words.
abbrev pub break_word : Lexer → Lexer
break_word l =
    if l.present
    then record {
      words = l.words ++ word l ∷ [];
      text = [];
      quoted = l.quoted;
      word_quoted = false;
      present = false;
      closed_quote = false;
    }
    else l

-- The branches of the other characters.
abbrev pub plain : Lexer → ℕ → Option Lexer
plain l c =
    if is_ascii_whitespace c && not l.quoted
    then some (break_word l)
    else if not l.quoted && is_exec_reserved c
    then none
    else some (push l c)

-- The body of the loop, with the character behind, which only a backslash takes.
unfoldable pub lex : Lexer → ℕ → Option ℕ → Option Lexer
unfolding is_exec_reserved
lex l c next =
    if l.closed_quote && not (is_ascii_whitespace c)
    then none
    else if c == b'"'
    then quote l
    else if c == b'\\'
    then escaped l next
    else plain l c

unfoldable pub finish : Lexer → Option (List ExecWord)
finish l =
    let words = if l.present then l.words ++ word l ∷ [] else l.words in
    if l.quoted then none else if is_empty words then none else some words

-- The loop `while let Some(character) = characters.next()`, and what follows it.
unfoldable pub lex_all : Lexer → Str → Option (List ExecWord)
lex_all l [] = finish l
lex_all l (c ∷ []) = and_then (lex l c none) finish
lex_all l (c ∷ d ∷ rest) =
    choose (c == b'\\') (λ _. and_then (lex l c (some d)) (λ m. lex_all m rest))
      (λ _. and_then (lex l c none) (λ m. lex_all m (d ∷ rest)))

abbrev pub start : Lexer
start = record {
  words = [];
  text = [];
  quoted = false;
  word_quoted = false;
  present = false;
  closed_quote = false;
}

unfoldable pub exec_words : Str → Option (List ExecWord)
exec_words value = lex_all start value
