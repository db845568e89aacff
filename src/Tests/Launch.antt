-- ===== src/Tests/Launch.antt =====
-- The launch of applications at small inputs.
use agent_seat_proto.Prelude.{
  ℕ, ◌≡◌, refl, arith, true, false, some, none, List, [], ◌∷◌, map, all, is_empty, Result, ok, leb,
  ◌==◌,
}
use agent_seat_proto.Prelude.Text.{Str, chars, same, as_bytes}
use agent_seat_proto.Prelude.Split.{split, split_once, ends_with, strip_prefix}
use agent_seat_proto.Prelude.Paths.{pieces, components}
use agent_seat_proto.Launch.Exec.{ExecWord, is_exec_reserved, lex, finish, lex_all, exec_words}
use agent_seat_proto.Launch.Exec.Words.{is_word, exec_words-Words}
use agent_seat_proto.Launch.Exec.RoundTrip.{print_quoted, print_word, print_words}
use agent_seat_proto.Launch.Expand.{
  Environment, join_path, find_program, resolve_program, is_ascii, parse_exec,
}
use agent_seat_proto.Launch.Expand.Launchable.{Launchable, parse_exec-Launchable}
use agent_seat_proto.Launch.Expand.Written.{print_char, print_string, parse_exec-written}
use agent_seat_proto.Launch.Entry.{
  get, trim_start, strip_last, ended, valid_key, open_group, parse_line, parse_lines, parse_desktop,
  Values,
}
use agent_seat_proto.Launch.Entry.Keys.{Keyed, parse_desktop-Keyed}
use agent_seat_proto.Launch.Catalog.{
  Failure, LaunchPolicy, allow_installed, allows_any, permits, CatalogEntry, discover, new,
  descriptor_of,
}
use agent_seat_proto.Launch.Catalog.Pages.{follow, follow_complete}
use agent_seat_proto.Launch.Supervisor.{System, Supervisor, reap_children}
use agent_seat_proto.Launch.Supervisor.Reaping.{count, runs, reap_children-Running}
use agent_seat_proto.Launch.Supervisor.Tokens.{Bounded, Attempt, launches, Rising, launches-Bounded}

abbrev command_line : Str
command_line = chars "sh \"a;b\""

abbrev shell : ExecWord
shell = record { text = chars "sh"; quoted = false }

abbrev argument : ExecWord
argument = record { text = chars "a;b"; quoted = true }

words_lem : exec_words command_line ≡ some (shell ∷ argument ∷ [])
unfolding exec_words lex_all lex finish is_exec_reserved
words_lem = refl

exec_words-Words_example :
    (is_empty (shell ∷ argument ∷ []) ≡ false) × (all is_word (shell ∷ argument ∷ []) ≡ true)
exec_words-Words_example = exec_words-Words command_line (shell ∷ argument ∷ []) words_lem

abbrev machine : Environment
unfolding same
machine = record {
  path = some (chars "bin:/usr/bin");
  executable_file = λ path. same path (chars "/usr/bin/sh");
}

resolved_lem : resolve_program machine shell.text ≡ some (chars "/usr/bin/sh")
unfolding resolve_program as_bytes components pieces split find_program join_path ends_with same
    machine
resolved_lem = refl

ascii_lem : is_ascii (print_string (print_words (shell ∷ argument ∷ []))) ≡ true
unfolding print_string print_char print_words print_word print_quoted
ascii_lem = refl

plain_lem : all is_word (shell ∷ argument ∷ []) ≡ true
unfolding is_exec_reserved
plain_lem = refl

written_lem :
    parse_exec machine
      (print_string (print_words (shell ∷ argument ∷ [])))
      (chars "Shell")
      none
      none
    ≡ some (chars "/usr/bin/sh", chars "a;b" ∷ [])
written_lem =
    parse_exec-written machine shell (argument ∷ []) (chars "Shell") none none (chars "/usr/bin/sh")
      plain_lem (refl, (refl, tt)) (omega arith) ascii_lem refl refl resolved_lem

parse_exec-written_example :
    parse_exec machine
      (print_string (print_words (shell ∷ argument ∷ [])))
      (chars "Shell")
      none
      none
    ≡ some (chars "/usr/bin/sh", chars "a;b" ∷ [])
parse_exec-written_example =
    parse_exec-written machine shell (argument ∷ []) (chars "Shell") none none (chars "/usr/bin/sh")
      plain_lem (refl, (refl, tt)) (omega arith) ascii_lem refl refl resolved_lem

parse_exec-Launchable_example :
    Launchable machine
      (print_string (print_words (shell ∷ argument ∷ [])))
      (chars "Shell")
      none
      none
      (chars "/usr/bin/sh")
      (chars "a;b" ∷ [])
parse_exec-Launchable_example =
    parse_exec-Launchable machine (print_string (print_words (shell ∷ argument ∷ [])))
      (chars "Shell") none none (chars "/usr/bin/sh") (chars "a;b" ∷ []) written_lem

abbrev entry_text : Str
entry_text = chars "# first\n[Desktop Entry]\r\nName = Shell\nName[de]=Muschel\n[Other]\nx\n"

abbrev entry_values : Values
entry_values = (chars "Name[de]", chars "Muschel") ∷ (chars "Name", chars "Shell") ∷ []

entry_lem : parse_desktop entry_text ≡ some entry_values
unfolding parse_desktop parse_lines parse_line open_group valid_key get trim_start strip_last ended
    split split_once ends_with strip_prefix same
entry_lem = refl

parse_desktop-Keyed_example : Keyed entry_values
parse_desktop-Keyed_example = parse_desktop-Keyed entry_text entry_values entry_lem

abbrev policy : LaunchPolicy
policy = record {
  mode = allow_installed;
  allow = record { items = [] };
  denied = record { items = record { text = chars "b.desktop" } ∷ [] };
  allow_user_entries = false;
}

abbrev entry_of : Str → CatalogEntry
entry_of id = record {
  descriptor = record {
    id = record { text = id };
    name = record { text = chars "N" };
    user_entry = false;
  };
  program = chars "/usr/bin/sh";
  arguments = [];
  working_directory = none;
}

abbrev installed : ℕ → Result Failure (List CatalogEntry)
installed time = ok (
    entry_of (chars "a.desktop") ∷ entry_of (chars "b.desktop") ∷ entry_of (chars "c.desktop") ∷ [])

abbrev permitted : List CatalogEntry
permitted = entry_of (chars "a.desktop") ∷ entry_of (chars "c.desktop") ∷ []

discovered_lem : discover policy (installed 4) ≡ ok permitted
unfolding discover allows_any permits same
discovered_lem = refl

follow_complete_example : follow 1 policy installed 5 0 new ≡ some (map descriptor_of permitted)
follow_complete_example =
    follow_complete 1 policy installed (omega arith) (omega arith) new 4 permitted discovered_lem
      (omega arith) (omega arith)

abbrev computer : System
computer = record {
  process_id = 17;
  has_exited = λ child. child == 5;
  spawn = λ command. some 9;
  variable = λ name. none;
  is_executable = λ path. false;
}

reap_children-Running_example :
    count (λ child. leb 5 child) (reap_children computer (5 ∷ 6 ∷ 4 ∷ []))
    ≡ count (runs computer (λ child. leb 5 child)) (5 ∷ 6 ∷ 4 ∷ [])
reap_children-Running_example =
    reap_children-Running computer (λ child. leb 5 child) (5 ∷ 6 ∷ 4 ∷ [])

abbrev supervisor : Supervisor
supervisor = record {
  next_token = 1;
  children = 5 ∷ 6 ∷ [];
  delegate_via_systemd = false;
  delegated_unit_stem = [];
}

abbrev attempted : Attempt
attempted = record {
  system = computer;
  application = record { text = chars "c.desktop" };
  policy = policy;
  installed = installed 0;
}

launches-Bounded_example :
    Bounded (launches supervisor (attempted ∷ attempted ∷ [])).1
    × Rising 1 (launches supervisor (attempted ∷ attempted ∷ [])).0
launches-Bounded_example =
    launches-Bounded supervisor (attempted ∷ attempted ∷ [])
      (record { token = (omega arith, omega arith); children = omega arith })
