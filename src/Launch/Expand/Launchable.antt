-- ===== src/Launch/Expand/Launchable.antt =====
-- What `parse_exec` of crates/agent-seat-x11/src/launch.rs returns.
use agent_seat_proto.Prelude.{
  ℕ, ◌∙◌, refl, sym, ap, All, Bool, false, ==_iff, ◌≡◌, ◌≤◌, ◌<◌, arith, true, not, ◌||◌, ◌==◌, ltb,
  Option, some, List, [], ◌∷◌, ◌++◌, length, take, is_empty, and_then-eq-some, Bool-cases, inl, inr,
}
use agent_seat_proto.Prelude.Text.{Str, as_bytes}
use agent_seat_proto.Prelude.Split.{split}
use agent_seat_proto.Prelude.Paths.{components, is_absolute}
use agent_seat_proto.Launch.Exec.{ExecWord, decode_string, exec_words}
use agent_seat_proto.Launch.Expand.{
  Environment, max_exec_arguments, contains, join_path, find_program, resolve_program, expand_word,
  expand_words, program_and_arguments, parse_exec, is_ascii,
}

-- The directories along `PATH` before one: none of them that is absolute holds the program.
abbrev pub Passed : (List ℕ → Bool) → List ℕ → List (List ℕ) → Type 0
Passed executable name =
    All (λ directory. is_absolute directory ≡ true → executable (join_path directory name) ≡ false)

-- The first directory of a list that is absolute and holds the program.
pub record FirstOf (executable : List ℕ → Bool) (name : List ℕ) (directories : List (List ℕ))
    (path : List ℕ) : Type 0 where
  pub before : List (List ℕ)
  pub directory : List ℕ
  pub after : List (List ℕ)
  pub listed : directories ≡ before ++ directory ∷ after
  pub passed : Passed executable name before
  pub rooted : is_absolute directory ≡ true
  pub path_of : path ≡ join_path directory name
  pub runs : executable path ≡ true

-- A word names a program by its absolute path, or by a name alone that `PATH` leads to.
pub data Names (env : Environment) (word : Str) (path : List ℕ) : Type 0 where
  itself :
      is_absolute path ≡ true
      → path ≡ as_bytes word
      → env.executable_file path ≡ true
      → Names env word path
  along :
      (list : List ℕ)
      → length (components (as_bytes word)) ≡ 1
      → env.path ≡ some list
      → FirstOf env.executable_file (as_bytes word) (take 64 (split b':' list)) path
      → Names env word path

later_FirstOf :
    (executable : List ℕ → Bool) (name : List ℕ) (first : List ℕ) (rest : List (List ℕ))
    (path : List ℕ)
    → (is_absolute first ≡ true → executable (join_path first name) ≡ false)
    → FirstOf executable name rest path
    → FirstOf executable name (first ∷ rest) path
later_FirstOf executable name first rest path skipped f = record {
  before = first ∷ f.before;
  directory = f.directory;
  after = f.after;
  rooted = f.rooted;
  path_of = f.path_of;
  runs = f.runs;
  listed = ap (◌∷◌ first) f.listed;
  passed = (skipped, f.passed);
}

find_program-FirstOf :
    (executable : List ℕ → Bool) (name path : List ℕ) (directories : List (List ℕ))
    → find_program executable name directories ≡ some path
    → FirstOf executable name directories path
unfolding find_program
find_program-FirstOf executable name path [] h = absurd cc
find_program-FirstOf executable name path (directory ∷ rest) h =
    elim (Bool-cases (is_absolute directory)) [
      | inr relative ↦
          later_FirstOf executable name directory rest path (λ on. absurd (cc))
            (find_program-FirstOf executable name path rest (rw relative at h))
      | inl rooted ↦ elim (Bool-cases (executable (join_path directory name))) [
        | inr none_there ↦
            later_FirstOf executable name directory rest path (λ on. none_there)
              (find_program-FirstOf executable name path rest (rw (rooted, none_there) at h))
        | inl there ↦
            let e : join_path directory name ≡ path = cc (rw (rooted, there) at h) in
            record {
              before = [];
              directory = directory;
              after = rest;
              listed = refl;
              passed = tt;
              rooted = rooted;
              path_of = sym e;
              runs = rw (← e) there;
            }
      ]
    ]

resolve_program-Names :
    (env : Environment) (word : Str) (path : List ℕ)
    → resolve_program env word ≡ some path
    → Names env word path
unfolding resolve_program
resolve_program-Names env word path h = elim (Bool-cases (is_absolute (as_bytes word))) [
  | inl absolute ↦ elim (Bool-cases (env.executable_file (as_bytes word))) [
    | inr off ↦ absurd (cc (rw (absolute, off) at h))
    | inl runs ↦
        let e : as_bytes word ≡ path = cc (rw (absolute, runs) at h) in
        itself (rw (← e) absolute) (sym e) (rw (← e) runs)
  ]
  | inr relative ↦ elim (Bool-cases (length (components (as_bytes word)) == 1)) [
    | inl one ↦
        let (list, held, found) = and_then-eq-some env.path _ (rw (relative, one) at h) in
        along list ((==_iff _ 1).0 one) held (
          find_program-FirstOf env.executable_file (as_bytes word) path (take 64 (split b':' list))
            found)
    | inr more ↦ absurd (cc (rw (relative, more) at h))
  ]
]

expand_words-bounded :
    (before : List Str) (ws : List ExecWord) (name : Str) (path icon : Option Str)
    (after : List Str)
    → length before ≤ max_exec_arguments
    → expand_words before ws name path icon ≡ some after
    → length after ≤ max_exec_arguments
unfolding expand_words
expand_words-bounded before [] name path icon after fits h = ground arith
expand_words-bounded before (w ∷ ws) name path icon after fits h =
    let (added, expanded, next) = and_then-eq-some (expand_word w name path icon) _ h in
    elim (Bool-cases (ltb max_exec_arguments (length (before ++ added)))) [
      | inl over ↦ absurd (cc (rw over at next))
      | inr bounded ↦
          expand_words-bounded (before ++ added) ws name path icon after (ground (arith, bounded))
            (rw bounded at next)
    ]

-- The program's own word, as it stands in the command line.
pub record IsCommand (env : Environment) (word : Str) (program : List ℕ) : Type 0 where
  pub nonempty : is_empty word ≡ false
  pub unassigned : contains b'=' word ≡ false
  pub named : Names env word program

program_and_arguments-IsCommand :
    (env : Environment) (expanded : List Str) (program : List ℕ) (arguments : List Str)
    → program_and_arguments env expanded ≡ some (program, arguments)
    → (word : Str) × (expanded ≡ word ∷ arguments) × IsCommand env word program
unfolding program_and_arguments
program_and_arguments-IsCommand env [] program arguments h = absurd cc
program_and_arguments-IsCommand env (first ∷ rest) program arguments h =
    elim (Bool-cases (is_empty first)) [
      | inl empty ↦ absurd (cc (rw empty at h))
      | inr nonempty ↦ elim (Bool-cases (contains b'=' first)) [
        | inl assigned ↦ absurd (cc (rw (nonempty, assigned) at h))
        | inr unassigned ↦
            let (resolved, found, last) =
              and_then-eq-some (resolve_program env first) _ (rw (nonempty, unassigned) at h) in
            let e : resolved ≡ program = cc last in
            (
              first,
              cc last,
              record {
                nonempty = nonempty;
                unassigned = unassigned;
                named = rw (← e) (resolve_program-Names env first resolved found);
              },
            )
      ]
    ]

-- What an accepted value was made of, down to the word of the program.
pub record Launchable (env : Environment) (value name : Str) (path icon : Option Str)
    (program : List ℕ) (arguments : List Str) : Type 0 where
  pub decoded : Str
  pub words : List ExecWord
  pub word : Str
  pub read : decode_string value ≡ some decoded
  pub split_up : exec_words decoded ≡ some words
  pub expanded : expand_words [] words name path icon ≡ some (word ∷ arguments)
  pub command : IsCommand env word program
  pub few : length arguments < max_exec_arguments

-- A command line that is accepted starts the program that its first word names once it is expanded,
-- with the words behind it as arguments, fewer than 128. That word is not empty and has no equals
-- sign. It is the absolute path of a file that can be run, or a name of one component, found in the
-- first of the leading 64 directories of `PATH` that is absolute and holds a file that can be run.
pub parse_exec-Launchable :
    (env : Environment) (value name : Str) (path icon : Option Str) (program : List ℕ)
    (arguments : List Str)
    → parse_exec env value name path icon ≡ some (program, arguments)
    → Launchable env value name path icon program arguments
unfolding parse_exec
parse_exec-Launchable env value name path icon program arguments h =
    elim (Bool-cases (is_empty value || not (is_ascii value))) [
      | inl refused ↦ absurd (cc (rw refused at h))
      | inr accepted ↦
          let (decoded, read, a) = and_then-eq-some (decode_string value) _ (rw accepted at h) in
          let (words, split_up, b) = and_then-eq-some (exec_words decoded) _ a in
          let (expanded, c, d) = and_then-eq-some (expand_words [] words name path icon) _ b in
          let (word, parts, command) =
            program_and_arguments-IsCommand env expanded program arguments d in
          let bounded = expand_words-bounded [] words name path icon expanded (omega arith) c in
          record {
            decoded = decoded;
            words = words;
            word = word;
            read = read;
            split_up = split_up;
            expanded = c ∙ ap (λ l. some l) parts;
            command = command;
            few = omega (arith, bounded, ap length parts);
          }
    ]
