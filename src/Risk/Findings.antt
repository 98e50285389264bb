-- ===== src/Risk/Findings.antt =====
-- The findings of risk.rs: each is a test of the lower-case command with the reason that it gives.
use Prim.Native.String.{String}
use remote_deck.Base.{
  Bool, false, ◌&&◌, ◌||◌, not, List, [], ◌∷◌, Text, codes, text_eq, as_bytes, any, starts_with,
  contains_text, contains_char, if◌then◌else◌,
}
use remote_deck.Risk.Words.{shell_words, contains_any_word, one_of}
use remote_deck.Risk.Programs.{contains_command, contains_any_command, contains_program_prefix}

abbrev pub command_is : Text → String → Bool
command_is command program = contains_command command (codes program)

unfoldable pub contains_redirection : Text → Bool
contains_redirection command = contains_char b'>' (as_bytes command)

unfoldable pub contains_sed_in_place : Text → Bool
contains_sed_in_place command =
    command_is command "sed"
    && any (λ word. text_eq word (codes "-i") || starts_with (codes "-i") word)
        (shell_words command)

unfoldable pub contains_service_mutation : Text → Bool
contains_service_mutation command =
    (command_is command "systemctl" || command_is command "service")
    && contains_any_word command
        ("start" ∷ "stop" ∷ "restart" ∷ "reload" ∷ "enable" ∷ "disable" ∷ [])

unfoldable pub contains_systemctl_reboot : Text → Bool
contains_systemctl_reboot command =
    command_is command "systemctl"
    && contains_any_word command ("reboot" ∷ "poweroff" ∷ "halt" ∷ [])

unfoldable pub contains_systemctl_kill : Text → Bool
contains_systemctl_kill command =
    command_is command "systemctl" && contains_any_word command ("kill" ∷ [])

abbrev pub package_managers : List String
package_managers =
    "apt" ∷ "apt-get" ∷ "dnf" ∷ "yum" ∷ "pacman" ∷ "zypper" ∷ "snap" ∷ "npm" ∷ "pnpm" ∷ "pip"
    ∷ "pip3" ∷ []

unfoldable pub contains_package_mutation : Text → Bool
contains_package_mutation command =
    contains_any_command command package_managers
    && contains_any_word command ("install" ∷ "upgrade" ∷ "update" ∷ "add" ∷ [])

unfoldable pub contains_package_removal : Text → Bool
contains_package_removal command =
    contains_any_command command package_managers
    && contains_any_word command ("remove" ∷ "uninstall" ∷ "purge" ∷ [])

unfoldable pub contains_mutating_git : Text → Bool
contains_mutating_git command =
    command_is command "git"
    && contains_any_word command (
        "add" ∷ "commit" ∷ "checkout" ∷ "switch" ∷ "merge" ∷ "rebase" ∷ "pull" ∷ "push" ∷ "restore"
        ∷ "tag" ∷ [])

abbrev has_word : List Text → String → Bool
has_word words word = any (λ w. text_eq w (codes word)) words

unfoldable pub contains_destructive_git : Text → Bool
contains_destructive_git command =
    if not (command_is command "git")
    then false
    else let words = shell_words command in
      (has_word words "reset" && has_word words "--hard")
      || (has_word words "clean"
          && any (λ word. starts_with (codes "-") word && contains_char b'f' word) words)
      || (has_word words "push"
          && any
              (λ word.
                one_of word ("--force" ∷ "--force-with-lease" ∷ []) || text_eq word (codes "-f"))
              words)

unfoldable pub contains_dd_device_copy : Text → Bool
contains_dd_device_copy command =
    command_is command "dd"
    && (contains_text (codes "if=") command || contains_text (codes "of=") command)

unfoldable pub contains_find_delete : Text → Bool
contains_find_delete command =
    command_is command "find" && contains_any_word command ("-delete" ∷ [])

unfoldable pub contains_remote_script_pipe : Text → Bool
contains_remote_script_pipe command =
    (command_is command "curl" || command_is command "wget")
    && contains_char b'|' command
    && contains_any_command command ("sh" ∷ "bash" ∷ "zsh" ∷ [])

unfoldable pub level_one_findings : Text → List (Bool × String)
level_one_findings command =
    (
      contains_any_command command ("cp" ∷ "mv" ∷ "mkdir" ∷ "touch" ∷ "chmod" ∷ "chown" ∷ []),
      "May modify files or permissions",
    )
    ∷ (contains_service_mutation command, "Changes service state")
    ∷ (contains_package_mutation command, "Changes installed software")
    ∷ (contains_mutating_git command, "Changes Git state")
    ∷ (contains_redirection command, "Contains output redirection")
    ∷ (
      contains_any_command command ("tee" ∷ "truncate" ∷ []) || contains_sed_in_place command,
      "Uses a file-writing utility",
    )
    ∷ (
      contains_text (codes "$(") command || contains_char b'`' command,
      "Contains command substitution",
    )
    ∷ []

unfoldable pub level_two_findings : Text → List (Bool × String)
level_two_findings command =
    (command_is command "sudo" || command_is command "su", "Requests privilege elevation")
    ∷ (
      contains_any_command command ("reboot" ∷ "shutdown" ∷ "poweroff" ∷ "halt" ∷ [])
          || contains_systemctl_reboot command,
      "Can shut down or reboot the host",
    )
    ∷ (
      contains_any_command command ("rm" ∷ "rmdir" ∷ "unlink" ∷ []) || contains_find_delete command,
      "Deletes filesystem entries",
    )
    ∷ (
      contains_any_command command ("kill" ∷ "pkill" ∷ "killall" ∷ [])
          || contains_systemctl_kill command,
      "Signals or terminates processes",
    )
    ∷ (
      contains_any_command command ("mkfs" ∷ "fdisk" ∷ "parted" ∷ "wipefs" ∷ [])
          || contains_program_prefix command (codes "mkfs.")
          || contains_dd_device_copy command,
      "Can modify disks or filesystems",
    )
    ∷ (contains_destructive_git command, "Contains a destructive Git operation")
    ∷ (contains_remote_script_pipe command, "Downloads and executes a remote script")
    ∷ (contains_package_removal command, "Removes installed software")
    ∷ []

-- For tests: every finding computes.
unfoldable pub findings : Unit {0}
unfolding contains_redirection contains_sed_in_place contains_service_mutation
    contains_systemctl_reboot contains_systemctl_kill contains_package_mutation
    contains_package_removal contains_mutating_git contains_destructive_git contains_dd_device_copy
    contains_find_delete contains_remote_script_pipe level_one_findings level_two_findings
    contains_command contains_any_command contains_program_prefix shell_words contains_any_word
    as_bytes starts_with contains_text text_eq
findings = tt
