-- ===== src/Shell/Tests.antt =====
-- The fake shell on concrete inputs.
use honeypot_m1spro.Shell.Normal.{IsNormal, resolve-IsNormal}
use honeypot_m1spro.Shell.Session.{after_lines, after_lines-is_dir}
use honeypot_m1spro.Base.{lookup, has_key, String, ◌≡◌, refl, true, none, some, [], ◌∷◌}
use honeypot_m1spro.Shell.Paths.{
  strip, words, join_path, basename, initial_slashes, collapse, normpath,
}
use honeypot_m1spro.Shell.{
  new_shell, prompt, resolve, is_dir, is_option, sorted, first_or, list_names, ls, cd, cat_one, cat,
  execute_rest, execute_system, execute, execute_words, run, FakeShell,
}

-- What the tests compute with.
unfoldable pub shell : Unit {0}
unfolding run execute_words execute execute_system execute_rest ls cd cat cat_one is_option first_or
    list_names sorted is_dir prompt resolve join_path normpath collapse initial_slashes words strip
    basename lookup has_key
shell = tt

dotted : normpath "/home/admin/.././/admin/./x" ≡ "/home/admin/x"
unfolding shell
dotted = refl

two_slashes : normpath "//etc/../.." ≡ "//"
unfolding shell
two_slashes = refl

spaced : words "  ls\t -la  x " ≡ "ls" ∷ "-la" ∷ "x" ∷ []
unfolding shell
spaced = refl

-- The answer to a line, with "IndexError" for a crash.
abbrev answer : FakeShell → String → String
answer sh line = elim (run sh line) [ none ↦ "IndexError" | some (out, _) ↦ out ]

abbrev after : FakeShell → String → FakeShell
after sh line = elim (run sh line) [ none ↦ sh | some (_, sh') ↦ sh' ]

session_tests :
    (answer new_shell "pwd" ≡ "/home/admin")
    × (answer new_shell " ls -la ~/.ssh "
        ≡ "authorized_keys  config  id_rsa  id_rsa.pub  known_hosts")
    × (answer new_shell "ls ~/projects/api" ≡ "config.yml  main.py")
    × ((after new_shell "cd /etc/../var/log").cwd ≡ "/var/log")
    × (answer new_shell "cd /tmp" ≡ "-bash: cd: /tmp: No such file or directory")
    × (answer new_shell "echo __EXIT__" ≡ "__EXIT__")
    × (answer new_shell "rm -rf /" ≡ "-bash: rm: command not found")
    × (answer new_shell "cat /etc/hostname /etc notes"
        ≡ "srv-web-01\ncat: /etc: Is a directory\ncat: notes: No such file or directory")
unfolding shell
session_tests = (refl, refl, refl, refl, refl, refl, refl, refl)

prompts :
    (prompt new_shell ≡ "admin@srv-web-01:~$ ")
    × (prompt (after new_shell "cd projects") ≡ "admin@srv-web-01:~/projects$ ")
    × (prompt (after new_shell "cd /") ≡ "admin@srv-web-01:/$ ")
unfolding shell
prompts = (refl, refl, refl)

resolved_path :
    IsNormal (resolve "/home/admin" "../../etc//./passwd")
    × (normpath (resolve "/home/admin" "../../etc//./passwd")
        ≡ resolve "/home/admin" "../../etc//./passwd")
resolved_path = resolve-IsNormal "/home/admin" "../../etc//./passwd" refl

after_lines-is_dir_example :
    (sh' : FakeShell) × (after_lines new_shell ("cd /tmp" ∷ "" ∷ "rm -rf /" ∷ []) ≡ some sh')
    × (is_dir sh'.cwd ≡ true)
unfolding shell
after_lines-is_dir_example = after_lines-is_dir new_shell ("cd /tmp" ∷ "" ∷ "rm -rf /" ∷ []) refl
