-- ===== src/Bridge/Tailscale/Laws.antt =====
-- When a tunnel is up, and how it is taken down.
use lib_agent_mcp.Prelude.{
  ap, sym, ◌∙◌, Option-cases, ◌≡◌, ◌⊎◌, inl, inr, ℕ, Option, none, some, List, arith, Bool-cases,
  true,
}
use lib_agent_mcp.Prelude.Text.{Text, text, text_eq_iff, is_empty}
use lib_agent_mcp.Bridge.Io.{done, Attempt-cases, >>=-eq-done, or_wrap}
use lib_agent_mcp.Bridge.Tailscale.{
  CmdRunner, Tools, is_tailscale_port, validate_tailscale, local_port, up_args, down_args,
  url_or_derived, start_tailscale, wire_valid, wire_tailscale, lifted, no_program,
}

validate_tailscale-none :
    (t : Tools) (mode : Text) (port : ℕ)
    → validate_tailscale t mode port ≡ none
    → ((mode ≡ text "funnel") ⊎ (mode ≡ text "serve"))
      × ((port ≡ 443) ⊎ ((port ≡ 8443) ⊎ (port ≡ 10000)))
unfolding validate_tailscale is_tailscale_port
validate_tailscale-none t mode port e =
    ground (arith, text_eq_iff mode (text "funnel"), text_eq_iff mode (text "serve"))

module _ (t : Tools) {E : Type 0} (r : CmdRunner E) where
  -- A tunnel that was brought up: a mode and a port that are allowed, a command for them that
  -- succeeded last, and a teardown for the same mode and port.
  pub record IsUp (mode : Text) (port : ℕ) (http_addr : Text) (down : List Text) (s : E)
      : Type 0 where
    pub mode_allowed : (mode ≡ text "funnel") ⊎ (mode ≡ text "serve")
    pub port_allowed : (port ≡ 443) ⊎ ((port ≡ 8443) ⊎ (port ≡ 10000))
    pub lport : Text
    pub local : local_port t http_addr ≡ done lport
    pub bin : Text
    pub before : E
    pub ran : r.run (up_args t bin mode port lport) before ≡ (done tt, s)
    pub teardown : down ≡ down_args t bin mode port

  start_tailscale-IsUp :
      (bin mode : Text) (port : ℕ) (lport : Text) (s : E) {down : List Text}
      → (start_tailscale t r bin mode port lport s).0 ≡ done down
      → (down ≡ down_args t bin mode port)
        × (r.run (up_args t bin mode port lport) s
            ≡ (done tt, (start_tailscale t r bin mode port lport s).1))
  unfolding start_tailscale
  start_tailscale-IsUp bin mode port lport s e =
      elim (Attempt-cases (r.run (up_args t bin mode port lport) s).0) [
        | inl (u, h) ↦ (ground arith, ground arith)
        | inr (p, h) ↦ ground arith
      ]

  wire_valid-IsUp :
      (mode : Text) (port : ℕ) (http_addr public_url : Text) (s : E) {url : Text}
      {down : Option (List Text)}
      → (wire_valid t r mode port http_addr public_url s).0 ≡ done (url, down)
      → validate_tailscale t mode port ≡ none
      → (d : List Text) × (down ≡ some d)
        × IsUp mode port http_addr d (wire_valid t r mode port http_addr public_url s).1
  unfolding wire_valid
  wire_valid-IsUp mode port http_addr public_url s e valid =
      let (lport, local, e1, run1) = >>=-eq-done (lifted t r (local_port t http_addr)) _ s e in
      let (bin, found, e2, run2) =
        >>=-eq-done (or_wrap (no_program t r) (r.look_path (text "tailscale"))) _ s e1 in
      let s2 = (r.look_path (text "tailscale") s).1 in
      let (u, derived, e3, run3) = >>=-eq-done (url_or_derived t r bin port public_url) _ s2 e2 in
      let s3 = (url_or_derived t r bin port public_url s2).1 in
      let (d, started, e4, run4) = >>=-eq-done (start_tailscale t r bin mode port lport) _ s3 e3 in
      let (same, ran) = start_tailscale-IsUp bin mode port lport s3 started in
      let (modes, ports) = validate_tailscale-none t mode port valid in
      let end : (wire_valid t r mode port http_addr public_url s).1
          ≡ (start_tailscale t r bin mode port lport s3).1 =
        ap (λ x. x.1) (run1 ∙ (run2 ∙ (run3 ∙ run4))) in
      (
        d,
        ground arith,
        record {
          mode_allowed = modes;
          port_allowed = ports;
          lport = lport;
          local = local;
          bin = bin;
          before = s3;
          ran = ran ∙ ap (λ (x : E). (done tt, x)) (sym end);
          teardown = same;
        },
      )

  -- Where wiring succeeds, either no tunnel was asked for and nothing was done, or there is a
  -- teardown, and a tunnel is up for it.
  pub wire_tailscale-IsUp :
      (mode : Text) (port : ℕ) (http_addr public_url : Text) (s : E) {url : Text}
      {down : Option (List Text)}
      → (wire_tailscale t r mode port http_addr public_url s).0 ≡ done (url, down)
      → ((is_empty mode ≡ true)
          × (url ≡ public_url)
          × (down ≡ none)
          × ((wire_tailscale t r mode port http_addr public_url s).1 ≡ s))
        ⊎ ((d : List Text) × (down ≡ some d)
            × IsUp mode port http_addr d (wire_tailscale t r mode port http_addr public_url s).1)
  unfolding wire_tailscale
  wire_tailscale-IsUp mode port http_addr public_url s e = elim (Bool-cases (is_empty mode)) [
    | inl absent ↦ inl (absent, ground arith, ground arith, ground arith)
    | inr present ↦ elim (Option-cases (validate_tailscale t mode port)) [
      | inl valid ↦
          rw (present, valid)
            (inr
              (wire_valid-IsUp mode port http_addr public_url s (rw (present, valid) at e) valid))
      | inr (p, bad) ↦ ground arith
    ]
  ]
