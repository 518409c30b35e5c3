-- ===== src/Bridge/Tailscale.antt =====
-- tailscale.go: the tunnel in front of the HTTP listener. The tailscale program, the search for it,
-- net.SplitHostPort, the decoder of its status and strconv.Itoa are parameters.
pub mod Laws
use lib_agent_mcp.Prelude.{
  ℕ, Bool, true, false, not, ◌&&◌, ◌||◌, ◌==◌, Option, none, some, List, [], ◌∷◌, ◌++◌,
  if◌then◌else◌,
}
use lib_agent_mcp.Prelude.Text.{Text, text, text_eq, is_empty, trim_suffix, trim_space}
use lib_agent_mcp.Bridge.Io.{
  Problem, message, wrapped, followed, Attempt, done, failed, Io, pure, fail, or_wrap, told, ◌>>=◌,
  ◌>>◌,
}

-- cmdRunner, on a program of this path with these arguments, and exec.LookPath.
pub record CmdRunner (E : Type 0) : Type 0 where
  pub run : List Text → Io E (Unit {0})
  pub output : List Text → Io E Text
  pub look_path : Text → Io E Text

-- exec.CommandContext: a command that was run, with what it printed to both streams or to the standard
-- output alone.
pub record CommandContext (E : Type 0) : Type 0 where
  pub combined_output : List Text → E → (Option Problem × Text) × E
  pub output : List Text → Io E Text
  pub look_path : Text → Io E Text

abbrev pub explained : Option Problem → Text → Attempt (Unit {0})
explained none out = done tt
explained (some e) out =
    let msg = trim_space out in failed (if is_empty msg then e else followed e msg)

-- osRunner
unfoldable pub os_runner : {E : Type 0} → CommandContext E → CmdRunner E
os_runner c = record {
  run = λ args s. let ((e, out), s') = c.combined_output args s in (explained e out, s');
  output = c.output;
  look_path = c.look_path;
}

-- The functions of other packages, without an effect.
pub record Tools : Type 0 where
  pub itoa : ℕ → Text
  pub quote : Text → Text
  -- the port that net.SplitHostPort gives
  pub split_port : Text → Option Text
  -- Self.DNSName of the status, or "" where it is absent
  pub dns_name : Text → Attempt Text

unfoldable pub is_tailscale_port : ℕ → Bool
is_tailscale_port port = port == 443 || (port == 8443 || port == 10000)

module _ (t : Tools) where
  -- validateTailscale: the error, if any
  unfoldable pub validate_tailscale : Text → ℕ → Option Problem
  validate_tailscale mode port =
      if not (text_eq mode (text "funnel")) && not (text_eq mode (text "serve"))
      then some (
          message
            (text "--tailscale: only \"funnel\" or \"serve\" is supported, got " ++ t.quote mode))
      else if not (is_tailscale_port port)
      then some
          (message (text "--tailscale-port: must be 443, 8443, or 10000, got " ++ t.itoa port))
      else none

  unfoldable pub no_port : Text → Problem
  no_port http_addr =
      message
        (text "--tailscale needs a port in --http " ++ (t.quote http_addr ++ text " (e.g. :8330)"))

  abbrev pub port_or : Text → Option Text → Attempt Text
  port_or http_addr none = failed (no_port http_addr)
  port_or http_addr (some port) = if is_empty port then failed (no_port http_addr) else done port

  -- localPort
  unfoldable pub local_port : Text → Attempt Text
  local_port http_addr = port_or http_addr (t.split_port http_addr)

  abbrev pub url_of : ℕ → Text → Attempt Text
  url_of port host =
      if is_empty host
      then failed (message (text "tailscale status reported no MagicDNS name for this node"))
      else done (text "https://" ++ (host ++ (if port == 443 then [] else text ":" ++ t.itoa port)))

  abbrev pub url_of_status : ℕ → Attempt Text → Attempt Text
  url_of_status port (failed e) = failed (wrapped (text "parsing tailscale status") e)
  url_of_status port (done name) = url_of port (trim_suffix name (text "."))

  -- The arguments that bring the tunnel up, and those that take it down.
  unfoldable pub up_args : Text → Text → ℕ → Text → List Text
  up_args bin mode port lport =
      bin ∷ mode ∷ text "--bg" ∷ text "--yes" ∷ (text "--https=" ++ t.itoa port) ∷ lport ∷ []

  unfoldable pub down_args : Text → Text → ℕ → List Text
  down_args bin mode port = bin ∷ mode ∷ (text "--https=" ++ t.itoa port) ∷ text "off" ∷ []

  module _ {E : Type 0} (r : CmdRunner E) where
    abbrev pub lifted : {A : Type 0} → Attempt A → Io E A
    lifted a s = (a, s)

    -- tailscalePublicURL
    unfoldable pub tailscale_public_url : Text → ℕ → Io E Text
    tailscale_public_url bin port = do
      out ←
          or_wrap (wrapped (text "tailscale status"))
            (r.output (bin ∷ text "status" ∷ text "--json" ∷ []))
      lifted (url_of_status port (t.dns_name out))

    -- startTailscale: on success, the arguments of the teardown
    unfoldable pub start_tailscale : Text → Text → ℕ → Text → Io E (List Text)
    start_tailscale bin mode port lport = do
      or_wrap (wrapped (text "starting tailscale " ++ mode)) (r.run (up_args bin mode port lport))
      pure (down_args bin mode port)

    abbrev pub url_or_derived : Text → ℕ → Text → Io E Text
    url_or_derived bin port public_url =
        if is_empty public_url then tailscale_public_url bin port else pure public_url

    abbrev pub no_program : Problem → Problem
    no_program e = message (
        text "--tailscale needs the `tailscale` CLI on PATH; install Tailscale or drop --tailscale")

    -- wireTailscale after the flags are validated
    unfoldable pub wire_valid : Text → ℕ → Text → Text → Io E (Text × Option (List Text))
    wire_valid mode port http_addr public_url = do
      lport ← lifted (local_port http_addr)
      bin ← or_wrap no_program (r.look_path (text "tailscale"))
      url ← url_or_derived bin port public_url
      teardown ← start_tailscale bin mode port lport
      pure (url, some teardown)

    abbrev pub wire_checked :
        Option Problem → Text → ℕ → Text → Text → Io E (Text × Option (List Text))
    wire_checked (some e) mode port http_addr public_url = fail e
    wire_checked none mode port http_addr public_url = wire_valid mode port http_addr public_url

    -- wireTailscale: the public address, and the arguments of the teardown
    unfoldable pub wire_tailscale : Text → ℕ → Text → Text → Io E (Text × Option (List Text))
    wire_tailscale mode port http_addr public_url =
        if is_empty mode
        then pure (public_url, none)
        else wire_checked (validate_tailscale mode port) mode port http_addr public_url
