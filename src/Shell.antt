-- ===== src/Shell.antt =====
-- honeypots/common/fakeshell.py: a session of the fake shell, its working directory and commands.
-- The shell's answers are texts; `run` answers with the text and the new state.
pub mod Paths
pub mod Replies
pub mod Files
pub mod Normal
pub mod Session
pub mod Tests
use Prim.Native.String
use Prim.Native.String.{compare}
use text.Mathlib.Text.{is_le}
use honeypot_m1spro.Base.{
  lookup, has_key, String, Bool, not, ◌&&◌, ◌||◌, Option, none, some, List, [], ◌∷◌, map, ◌==◌,
  if◌then◌else◌, any, select, ◌<>◌, size, skip, starts_with, has_char, join,
}
use Paths.{strip, words, join_path, basename, normpath}
use Replies.{
  hostname, user, home, fake_uname, fake_ps, fake_netstat, fake_who, fake_last, bash_history,
}
use Files.{fake_files_content, dirs}

-- `FakeShell`.
pub record FakeShell : Type 0 where
  pub cwd : String

abbrev pub new_shell : FakeShell
new_shell = record { cwd = home }

unfoldable pub prompt : FakeShell → String
prompt sh =
    let short =
      if sh.cwd == home
      then "~"
      else if starts_with sh.cwd (home <> "/")
      then "~" <> skip (size home) sh.cwd
      else sh.cwd in
    user <> "@" <> hostname <> ":" <> short <> "$ "

-- `_resolve`: the path that `target` names from the directory `cwd`.
unfoldable pub resolve : String → String → String
resolve cwd target =
    let expanded =
      if target == "~" || starts_with target "~/" then home <> skip 1 target else target in
    normpath (if starts_with expanded "/" then expanded else join_path cwd expanded)

unfoldable pub is_dir : String → Bool
is_dir path = has_key path dirs

-- `"-" in a` and `"a" in a` of an option such as `-la`.
unfoldable pub is_option : String → Bool
is_option a = starts_with a "-"

-- `sorted(names)`, by code points.
insert_sorted : String → List String → List String
insert_sorted n [] = n ∷ []
insert_sorted n (m ∷ ms) =
    let rest = insert_sorted n ms in if is_le (compare n m) then n ∷ m ∷ ms else m ∷ rest

unfoldable pub sorted : List String → List String
unfolding insert_sorted
sorted [] = []
sorted (n ∷ ns) = insert_sorted n (sorted ns)

-- `paths[0] if paths else cwd`.
unfoldable pub first_or : List String → String → String
first_or [] cwd = cwd
first_or (p ∷ _) cwd = p

unfoldable pub list_names : Bool → List String → String
unfolding sorted
list_names show_hidden names =
    join "  " (sorted (if show_hidden then names else select (λ n. not (starts_with n ".")) names))

-- `_ls`, with the words of `dirs` and of `fake_files_content` in turn.
unfoldable pub ls : FakeShell → String → List String → String
ls sh cmd args =
    let show_hidden = cmd == "ll" || any (λ a. is_option a && has_char b'a' a) args in
    let raw = first_or (select (λ a. not (is_option a)) args) sh.cwd in
    let target = resolve sh.cwd raw in
    elim (lookup target dirs) [
      | some names ↦ list_names show_hidden names
      | none ↦
          if has_key target fake_files_content
          then basename target
          else "ls: cannot access '" <> raw <> "': No such file or directory"
    ]

-- `_cd`.
unfoldable pub cd : FakeShell → List String → String × FakeShell
cd sh [] = ("", record { cwd = home })
cd sh (a ∷ _) =
    let target = resolve sh.cwd a in
    if is_dir target
    then ("", record { cwd = target })
    else if has_key target fake_files_content
    then ("-bash: cd: " <> a <> ": Not a directory", sh)
    else ("-bash: cd: " <> a <> ": No such file or directory", sh)

-- One argument of `_cat`.
unfoldable pub cat_one : FakeShell → String → String
cat_one sh a =
    let target = resolve sh.cwd a in
    elim (lookup target fake_files_content) [
      | some content ↦ content
      | none ↦
          if is_dir target
          then "cat: " <> a <> ": Is a directory"
          else "cat: " <> a <> ": No such file or directory"
    ]

-- `_cat`: the loop skips the options.
unfoldable pub cat : FakeShell → List String → String
cat sh args = join "\n" (map (cat_one sh) (select (λ a. not (is_option a)) args))

-- The chain of tests of `run`, on the words of the line: the commands on files, `echo` and what
-- is left.
unfoldable pub execute_rest : FakeShell → String → List String → String × FakeShell
execute_rest sh cmd args =
    if cmd == "ls" || cmd == "ll" || cmd == "dir"
    then (ls sh cmd args, sh)
    else if cmd == "cd"
    then cd sh args
    else if cmd == "cat"
    then (cat sh args, sh)
    else if cmd == "echo"
    then (join " " args, sh)
    else if cmd == "exit" || cmd == "logout" || cmd == "quit"
    then ("__EXIT__", sh)
    else if cmd == "wget" || cmd == "curl"
    then ("", sh)
    else ("-bash: " <> cmd <> ": command not found", sh)

-- The commands about the system.
unfoldable pub execute_system : FakeShell → String → List String → String × FakeShell
execute_system sh cmd args =
    if cmd == "ps"
    then (fake_ps, sh)
    else if cmd == "netstat"
    then (fake_netstat, sh)
    else if cmd == "who" || cmd == "users"
    then (if cmd == "who" then fake_who else user, sh)
    else if cmd == "last"
    then (fake_last, sh)
    else if cmd == "uptime"
    then (" 10:24:55 up 1 day,  1:24,  1 user,  load average: 0.08, 0.03, 0.01", sh)
    else execute_rest sh cmd args

-- The commands about the session stand first in the chain.
unfoldable pub execute : FakeShell → String → List String → String × FakeShell
execute sh cmd args =
    if cmd == "whoami"
    then (user, sh)
    else if cmd == "id"
    then (
      "uid=1000(" <> user <> ") gid=1000(" <> user <> ") groups=1000(" <> user <> "),27(sudo)",
      sh,
    )
    else if cmd == "pwd"
    then (sh.cwd, sh)
    else if cmd == "uname"
    then (if any (λ a. a == "-a") args then fake_uname else "Linux", sh)
    else if cmd == "hostname"
    then (hostname, sh)
    else if cmd == "history"
    then (bash_history, sh)
    else execute_system sh cmd args

-- `parts[0]` and `parts[1:]`; `none` is the `IndexError` of a line without words.
unfoldable pub execute_words : FakeShell → List String → Option (String × FakeShell)
unfolding execute
execute_words sh [] = none
execute_words sh (cmd ∷ args) = some (execute sh cmd args)

unfoldable pub run : FakeShell → String → Option (String × FakeShell)
run sh line =
    let stripped = strip line in
    if stripped == "" then some ("", sh) else execute_words sh (words stripped)
