-- ===== src/Bridge/Runner.antt =====
-- runner.go: the arguments, the environment and the outcome of the child process that serves a tool
-- call. Starting the process is a parameter.
pub mod Laws
use lib_agent_mcp.Prelude.{
  ℕ, Bool, true, false, Option, none, some, List, [], ◌∷◌, ◌++◌, if◌then◌else◌,
}
use lib_agent_mcp.Prelude.Text.{Text, text, is_empty}
use lib_agent_mcp.Prelude.Dict.{Dict, lookup, keys, sorted}
use lib_agent_mcp.Oauth.World.{Verified, is_anonymous}

-- A value of the options object of a call. The values that are printed by %v are of a type V.
pub data Value (V : Type 0) : Type 0 where
  null : Value V
  truth : Bool → Value V
  many : List V → Value V
  one : V → Value V

-- RunResult; a child that could not be started or was cancelled has no exit code (-1 in the source).
pub data ExitCode : Type 0 where
  exited : ℕ → ExitCode
  not_run : ExitCode

pub record RunResult : Type 0 where
  pub stdout : Text
  pub stderr : Text
  pub exit_code : ExitCode

-- What cmd.Run() reports: the exit code, or the message of an error that is not an exit.
pub data Ended : Type 0 where
  with_code : ℕ → Ended
  with_error : Text → Ended

pub record Child : Type 0 where
  pub out : Text
  pub errors : Text
  pub ended : Ended

-- boundPrincipal, of the principal on the context, if there is one.
unfoldable pub bound_principal : Option Verified → Option Verified
bound_principal none = none
bound_principal (some p) = if is_anonymous p.grant then none else some p

-- IdentityBinding: the extra arguments and environment.
abbrev pub IdentityBinding : Type 0
IdentityBinding = Verified → List Text × List Text

abbrev pub injected : IdentityBinding → Option Verified → List Text × List Text
injected binding none = ([], [])
injected binding (some p) = binding p

unfoldable pub identity_injection : Option IdentityBinding → Option Verified → List Text × List Text
identity_injection none ctx = ([], [])
identity_injection (some binding) ctx = injected binding (bound_principal ctx)

unfoldable pub bool_text : Bool → Text
bool_text true = text "true"
bool_text false = text "false"

unfoldable pub finished : Child → RunResult
finished c = elim c.ended [
  | with_code n ↦ record { stdout = c.out; stderr = c.errors; exit_code = exited n }
  | with_error message ↦ record {
    stdout = c.out;
    stderr = if is_empty c.errors then message else c.errors;
    exit_code = not_run;
  }
]

module _ {V : Type 0} (show : V → Text) where
  -- `fmt.Sprintf("--%s=%v", name, v)`
  unfoldable pub flag_text : Text → Text → Text
  flag_text name v = text "--" ++ (name ++ (text "=" ++ v))

  unfoldable pub flag_texts : Text → List V → List Text
  flag_texts name [] = []
  flag_texts name (v ∷ vs) = flag_text name (show v) ∷ flag_texts name vs

  unfoldable pub render_flag : Text → Value V → List Text
  render_flag name null = []
  render_flag name (truth b) = flag_text name (bool_text b) ∷ []
  render_flag name (many vs) = flag_texts name vs
  render_flag name (one v) = flag_text name (show v) ∷ []

  -- `renderFlag(name, opts[name])`, where a missing name gives nil
  unfoldable pub render_option : Text → Option (Value V) → List Text
  render_option name none = []
  render_option name (some v) = render_flag name v

  unfoldable pub render_options : Dict (Value V) → List Text → List Text
  render_options opts [] = []
  render_options opts (name ∷ names) =
      render_option name (lookup name opts) ++ render_options opts names

  unfoldable pub build_argv : List Text → List Text → Dict (Value V) → Bool → List Text
  build_argv path args opts inject_confirm =
      path
      ++ (render_options opts (sorted (keys opts))
          ++ (args
              ++ ((if inject_confirm then text "--yes" ∷ [] else [])
                  ++ (text "--format" ∷ text "jsonl" ∷ []))))

  -- The arguments that `run` gives to the child.
  unfoldable pub child_argv :
      Option IdentityBinding
      → Option Verified
      → List Text
      → List Text
      → Dict (Value V)
      → Bool
      → List Text
  child_argv binding ctx path args opts inject_confirm =
      build_argv path args opts inject_confirm ++ (identity_injection binding ctx).0

  -- run; `start` is the child for its arguments and the additions to its environment.
  unfoldable pub run :
      (List Text → List Text → Child)
      → Option IdentityBinding
      → Option Verified
      → List Text
      → List Text
      → Dict (Value V)
      → Bool
      → RunResult
  run start binding ctx path args opts inject_confirm = finished (
      start (child_argv binding ctx path args opts inject_confirm)
        (identity_injection binding ctx).1)

-- The method executable, of the option, what os.Executable gives, and os.Args[0].
unfoldable pub executable : Text → Option Text → Text → Text
executable configured running arg0 = if is_empty configured then or_arg0 running else configured
  where
    or_arg0 : Option Text → Text
    or_arg0 none = arg0
    or_arg0 (some path) = path
