-- ===== src/Widget/Settings/Laws.antt =====
-- What the configuration keeps.
use lib_agent_mcp.Prelude.{
  ◌≡◌, ◌∙◌, ap, refl, Bool, true, false, Option, none, some, List, [], ◌∷◌, arith, if◌then◌else◌,
}
use lib_agent_mcp.Prelude.Text.{Text, text_eq}
use lib_agent_mcp.Prelude.Dict.{Dict, lookup, lookup-insert}
use lib_agent_mcp.Widget.{Output, Process, Run}
use lib_agent_mcp.Widget.Settings.{
  default_config, got_value, config_get, config_set, config_reset, admin_secret,
}

-- The commands on the configuration, with their arguments.
pub data Command : Type 0 where
  get : Option Text → Command
  set : (key value : Text) → Command
  reset : (confirmed : Bool) → Command
  secret : Command

abbrev update : (Text → Option Text) → Text → Text → Text → Option Text
update f k v j = if text_eq k j then some v else f j

-- The configuration as a function: what a sequence of commands makes of it.
abbrev pub replay : List Command → (Text → Option Text) → Text → Option Text
replay [] f = f
replay (get key ∷ cs) f = replay cs f
replay (set k v ∷ cs) f = replay cs (update f k v)
replay (reset true ∷ cs) f = replay cs (λ j. lookup j default_config)
replay (reset false ∷ cs) f = replay cs f
replay (secret ∷ cs) f = replay cs f

module _ {N F : Type 0} (o : Output N F) (format : Text) where
  abbrev pub one : Command → Run N F
  one (get key) = config_get o format key
  one (set k v) = config_set o k v
  one (reset confirmed) = config_reset o confirmed
  one secret = admin_secret o

  -- The state after a sequence of commands, whether or not they fail.
  abbrev pub all_of : List Command → Process N F → Process N F
  all_of [] s = s
  all_of (c ∷ cs) s = all_of cs (one c s).1

  config-get :
      (key : Option Text) (s : Process N F) → (config_get o format key s).1.config ≡ s.config
  unfolding config_get
  config-get none s = refl
  config-get (some key) s = ground arith

  -- x
  pub all_of-replay :
      (cs : List Command) (s : Process N F)
      → (λ k. lookup k (all_of cs s).config) ≡ replay cs (λ k. lookup k s.config)
  unfolding config_set config_reset admin_secret
  all_of-replay [] s = refl
  all_of-replay (get key ∷ cs) s =
      all_of-replay cs (one (get key) s).1
      ∙ ap (λ (m : Dict Text). replay cs (λ k. lookup k m)) (config-get key s)
  all_of-replay (set k v ∷ cs) s =
      all_of-replay cs (one (set k v) s).1 ∙ ap (replay cs) (λ i j. lookup-insert k j v s.config i)
  all_of-replay (reset true ∷ cs) s = all_of-replay cs (one (reset true) s).1
  all_of-replay (reset false ∷ cs) s = all_of-replay cs (one (reset false) s).1
  all_of-replay (secret ∷ cs) s = all_of-replay cs (one secret s).1

  -- x
  pub config_get-replay :
      (cs : List Command) (s : Process N F) (key : Text)
      → config_get o format (some key) (all_of cs s)
        ≡ got_value o format key (replay cs (λ k. lookup k s.config) key) (all_of cs s)
  unfolding config_get
  config_get-replay cs s key =
      ap (λ (f : Text → Option Text). got_value o format key (f key) (all_of cs s))
        (all_of-replay cs s)
