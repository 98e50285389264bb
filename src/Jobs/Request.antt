-- ===== src/Jobs/Request.antt =====
-- How command_job.rs resolves a request to run a command. Whether a text is a UUID is said by the
-- library uuid, a parameter.
use remote_deck.Base.{
  Bool, false, ◌&&◌, ◌||◌, not, Option, none, some, ◌++◌, Text, codes, text_eq, any, ltb,
  if◌then◌else◌, is_some, is_some_and, is_none, strip_prefix, trim, length, is_control, ok, err,
  ◌>>=◌, ◌>>◌, fail_if, ok_or,
}
use remote_deck.Model.{AppResult, HostProfile, CommandPreset, CommandRisk, l1}
use remote_deck.Risk.Analysis.{max_confirmation_chars}
use remote_deck.Store.Repository
use remote_deck.Store.Repository.{AppRepository}
use remote_deck.Jobs.Types.{
  CommandRunRequest, invalid_request, repository, JobResult, ResolvedCommand,
}
use remote_deck.Jobs.Quote.{posix_quote, in_directory}
use remote_deck.Jobs.Checks.{
  builtin, validate_command_text, normalize_directory, normalize_confirmation, trusted_preset_risk,
}

-- What is run, before its directory: of a preset, or typed by the user.
pub record Source : Type 0 where
  pub command_id : Option Text
  pub name : Text
  pub command : Text
  pub directory : Option Text
  pub declared_risk : CommandRisk
  pub requires_pty : Bool
  pub requires_sudo : Bool
  pub confirmation_text : Option Text

abbrev preset_source : CommandPreset → CommandRisk → Source
preset_source preset declared_risk = record {
  command_id = some preset.id;
  name = preset.name;
  command = preset.command;
  directory = preset.working_directory;
  declared_risk = declared_risk;
  requires_pty = preset.requires_pty;
  requires_sudo = preset.requires_sudo;
  confirmation_text = preset.confirmation_text;
}

abbrev typed_source : Text → Source
typed_source command = record {
  command_id = none;
  name = codes "Ad hoc command";
  command = command;
  directory = none;
  declared_risk = l1;
  requires_pty = false;
  requires_sudo = false;
  confirmation_text = none;
}

-- The selection in `resolve_command_request`.
unfoldable pub select_source :
    HostProfile → Option CommandPreset → CommandRunRequest → JobResult Source
unfolding trusted_preset_risk text_eq
select_source host preset request = elim request.command_id [
  | some command_id ↦ do
    fail_if (is_some request.command) invalid_request
    preset ← ok_or preset invalid_request
    fail_if (not (text_eq preset.id command_id)) invalid_request
    fail_if (is_some_and preset.host_id (λ id. not (text_eq id host.id))) invalid_request
    declared_risk ← trusted_preset_risk preset
    ok (preset_source preset declared_risk)
  | none ↦ do
    fail_if (is_some preset) invalid_request
    command ← ok_or request.command invalid_request
    ok (typed_source command)
]

-- `Option::or`.
abbrev or_else : Option Text → Option Text → Option Text
or_else none b = b
or_else (some a) b = some a

-- The command with the sudo wrapper.
abbrev pub wrapped : Source → Text
wrapped source =
    if source.requires_sudo
    then codes "sudo -- sh -lc " ++ posix_quote (trim source.command)
    else trim source.command

unfoldable pub resolve_source : HostProfile → CommandRunRequest → Source → JobResult ResolvedCommand
unfolding posix_quote in_directory trim validate_command_text normalize_directory
    normalize_confirmation
resolve_source host request source = do
  validate_command_text source.command
  validate_command_text (wrapped source)
  working_directory ←
      normalize_directory
        (or_else (or_else request.working_directory source.directory) (some host.default_workspace))
  validate_command_text (in_directory (wrapped source) working_directory)
  confirmation_text ← normalize_confirmation source.confirmation_text
  ok (record {
    host = host;
    command_id = source.command_id;
    name = source.name;
    command = wrapped source;
    working_directory = working_directory;
    declared_risk = source.declared_risk;
    requires_pty = source.requires_pty;
    confirmation_text = confirmation_text;
  })

module _ (is_uuid : Text → Bool) where
  abbrev is_command_id : Text → Bool
  is_command_id id =
      is_uuid id
      || is_some_and (strip_prefix (codes "builtin:") id) (λ rest. is_some (builtin rest))

  unfoldable pub validate_request_shape : CommandRunRequest → JobResult (Unit {0})
  unfolding builtin trim strip_prefix is_control
  validate_request_shape request = do
    fail_if (not (is_uuid (trim request.host_id))) invalid_request
    fail_if (is_some_and request.command_id (λ id. not (is_command_id (trim id)))) invalid_request
    fail_if (is_some request.command_id && is_some request.command) invalid_request
    fail_if (is_none request.command_id && is_none request.command) invalid_request
    fail_if
        (is_some_and request.confirmation (λ confirmation.
          ltb max_confirmation_chars (length confirmation) || any is_control confirmation))
        invalid_request

  unfoldable pub resolve_command_request :
      HostProfile → Option CommandPreset → CommandRunRequest → JobResult ResolvedCommand
  unfolding validate_request_shape text_eq select_source resolve_source
  resolve_command_request host preset request = do
    validate_request_shape request
    fail_if (not (text_eq host.id request.host_id)) invalid_request
    source ← select_source host preset request
    resolve_source host request source

  -- `map_err` of an error of the repository.
  abbrev from_repository : {A : Type 0} → AppResult A → JobResult A
  from_repository (ok a) = ok a
  from_repository (err e) = err repository

  abbrev stored_preset : AppRepository → Option Text → JobResult (Option CommandPreset)
  stored_preset repo none = ok none
  stored_preset repo (some command_id) = do
    preset ← from_repository (Repository.command repo command_id)
    ok (some preset)

  unfoldable pub resolve_repository_request :
      AppRepository → CommandRunRequest → JobResult ResolvedCommand
  unfolding validate_request_shape resolve_command_request
  resolve_repository_request repo request = do
    validate_request_shape request
    host ← from_repository (Repository.host repo request.host_id)
    preset ← stored_preset repo request.command_id
    resolve_command_request host preset request
