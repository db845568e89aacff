-- ===== src/Launch/Expand.antt =====
-- The field codes of a command line, `expand_word`, `resolve_program` and `parse_exec` of
-- crates/agent-seat-x11/src/launch.rs. What `PATH` holds and which files can be run is asked of
-- the environment.
pub mod Launchable
pub mod Written
use agent_seat_proto.Prelude.{
  ℕ, Bool, true, false, not, ◌&&◌, ◌||◌, ◌==◌, ltb, if◌then◌else◌, choose, Option, none, some, List,
  [], ◌∷◌, ◌++◌, length, take, is_empty, any, all, and_then,
}
use agent_seat_proto.Prelude.Text.{Str, same, chars, as_bytes}
use agent_seat_proto.Prelude.Split.{split, ends_with}
use agent_seat_proto.Prelude.Paths.{components, is_absolute}
use agent_seat_proto.Launch.Exec.{decode_string, ExecWord, exec_words}

abbrev pub max_exec_arguments : ℕ
max_exec_arguments = 128

-- `text.contains(character)`
abbrev pub contains : ℕ → Str → Bool
contains b = any (λ c. c == b)

-- The operating system: `env::var_os("PATH")` and the test that a path is a file with an
-- executable bit. A path is its bytes.
pub record Environment : Type 0 where
  pub path : Option (List ℕ)
  pub executable_file : List ℕ → Bool

-- `Path::join` of a relative path.
unfoldable pub join_path : List ℕ → List ℕ → List ℕ
join_path directory name =
    if is_empty directory || ends_with b'/' directory
    then directory ++ name
    else directory ++ b'/' ∷ name

-- The search along `PATH`: `filter`, `map` and `find`.
unfoldable pub find_program : (List ℕ → Bool) → List ℕ → List (List ℕ) → Option (List ℕ)
find_program executable candidate [] = none
find_program executable candidate (directory ∷ rest) =
    let later = find_program executable candidate rest in
    if not (is_absolute directory)
    then later
    else if executable (join_path directory candidate)
    then some (join_path directory candidate)
    else later

unfoldable pub resolve_program : Environment → Str → Option (List ℕ)
resolve_program env value =
    let candidate = as_bytes value in
    if is_absolute candidate
    then if env.executable_file candidate then some candidate else none
    else if not (length (components candidate) == 1)
    then none
    else and_then env.path
        (λ path. find_program env.executable_file candidate (take 64 (split b':' path)))

-- The loop over the characters of a literal word.
unfoldable pub expand_literal : Str → Option Str
expand_literal [] = some []
expand_literal (c ∷ []) = if c == b'%' then none else some (c ∷ [])
expand_literal (c ∷ d ∷ rest) =
    choose (c == b'%')
      (λ _. if d == b'%' then and_then (expand_literal rest) (λ s. some (b'%' ∷ s)) else none)
      (λ _. and_then (expand_literal (d ∷ rest)) (λ s. some (c ∷ s)))

abbrev pub is_dropped_code : Str → Bool
is_dropped_code text = any (same text) (
    chars "%f"
    ∷ chars "%F"
    ∷ chars "%u"
    ∷ chars "%U"
    ∷ chars "%d"
    ∷ chars "%D"
    ∷ chars "%n"
    ∷ chars "%N"
    ∷ chars "%v"
    ∷ chars "%m"
    ∷ [])

abbrev pub icon_words : Str → List Str
icon_words icon = if is_empty icon then [] else chars "--icon" ∷ icon ∷ []

-- The branch of `%i`.
abbrev pub expand_icon : Option Str → Option (List Str)
expand_icon none = some []
expand_icon (some icon) = and_then (decode_string icon) (λ decoded. some (icon_words decoded))

-- What the word adds to the output. `path` is the path of the entry as text, if it is text.
unfoldable pub expand_word : ExecWord → Str → Option Str → Option Str → Option (List Str)
expand_word word name path icon =
    if word.quoted && contains b'%' word.text
    then none
    else if is_dropped_code word.text
    then some []
    else if same word.text (chars "%i")
    then expand_icon icon
    else if same word.text (chars "%c")
    then some (name ∷ [])
    else if same word.text (chars "%k")
    then and_then path (λ text. some (text ∷ []))
    else and_then (expand_literal word.text) (λ text. some (text ∷ []))

-- The loop over the words, with the output so far.
unfoldable pub expand_words :
    List Str → List ExecWord → Str → Option Str → Option Str → Option (List Str)
expand_words expanded [] name path icon = some expanded
expand_words expanded (w ∷ ws) name path icon = and_then (expand_word w name path icon) (λ added.
    if ltb max_exec_arguments (length (expanded ++ added))
    then none
    else expand_words (expanded ++ added) ws name path icon)

-- What follows the loop: the first word is the program.
unfoldable pub program_and_arguments : Environment → List Str → Option (List ℕ × List Str)
program_and_arguments env [] = none
program_and_arguments env (program ∷ arguments) =
    if is_empty program || contains b'=' program
    then none
    else and_then (resolve_program env program) (λ resolved. some (resolved, arguments))

abbrev pub is_ascii : Str → Bool
is_ascii = all (λ c. ltb c 0x80)

unfoldable pub parse_exec :
    Environment → Str → Str → Option Str → Option Str → Option (List ℕ × List Str)
parse_exec env value name path icon =
    if is_empty value || not (is_ascii value)
    then none
    else and_then (decode_string value) (λ decoded.
      and_then (exec_words decoded)
        (λ words. and_then (expand_words [] words name path icon) (program_and_arguments env)))
