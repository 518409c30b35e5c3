-- ===== src/Widget/Settings.antt =====
-- The commands below `widget config`, on the map configData, and `widget admin secret`.
pub mod Laws
use lib_agent_mcp.Prelude.{Bool, not, Option, none, some, List, [], ◌∷◌, ◌++◌, if◌then◌else◌}
use lib_agent_mcp.Prelude.Text.{Text, text}
use lib_agent_mcp.Prelude.Dict.{Dict, lookup, insert}
use lib_agent_mcp.Widget.{
  Failure, agent, human, Written, notice, print_map, write_fields, write_reset, Output, Process,
  Run, write, noticing, fail, single_format,
}

unfoldable pub default_config : Dict Text
default_config = (text "theme", text "dark") ∷ (text "page_size", text "25") ∷ []

module _ {N F : Type 0} (o : Output N F) (format : Text) where
  abbrev pub got_value : Text → Option Text → Run N F
  got_value key none = fail o (record {
    message = text "unknown config key " ++ o.quote key;
    fixable_by = agent;
    hint = text "list keys with 'widget config get'";
  })
  got_value key (some v) = write o (print_map (single_format o format) ((key, v) ∷ []))

  -- The RunE of `config get`, with its argument, if there is one.
  unfoldable pub config_get : Option Text → Run N F
  config_get none s = write o (print_map (single_format o format) s.config) s
  config_get (some key) s = got_value key (lookup key s.config) s

module _ {N F : Type 0} (o : Output N F) where
  -- The RunE of `config set`.
  unfoldable pub config_set : Text → Text → Run N F
  config_set key value s =
      noticing o (notice (text "configuration updated") [])
        (write o (write_fields ((text "set", key) ∷ (text "value", value) ∷ [])))
        (record s { config = insert key value s.config })

  -- The RunE of `config reset`, with the flag --yes.
  unfoldable pub config_reset : Bool → Run N F
  config_reset confirmed s =
      if not confirmed
      then fail o
          (record {
            message = text "refusing to reset configuration without confirmation";
            fixable_by = human;
            hint = text "rerun with --yes";
          })
          s
      else write o write_reset (record s { config = default_config })

  -- The RunE of `admin secret`.
  unfoldable pub admin_secret : Run N F
  admin_secret = write o (write_fields ((text "secret", text "hunter2") ∷ []))
