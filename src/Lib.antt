-- ===== src/Lib.antt =====
-- lib-agent-mcp: an MCP server that exposes a command-line program's commands as tools, over stdin and
-- stdout or over HTTP behind its own OAuth authorization server.
--
-- The OAuth layer (the package oauth/) is modelled under Oauth, a module for each file:
--   Oauth/Store       oauth/store.go      SecretStore, KeyringStore, MemStore
--   Oauth/MapStore    oauth/mapstore.go   jsonMapStore: get, mutate, load, save
--   Oauth/World       oauth/random.go     the data of the package, the server's state, randToken
--   Oauth/Clients     oauth/clients.go    clientRegistry: Register, Get, allowsRedirect
--   Oauth/AuthCode    oauth/authcode.go   authCodeStore: issue, consume
--   Oauth/Refresh     oauth/refresh.go    refreshStore: issue, exchange, removeForPrincipal
--   Oauth/Pkce        oauth/pkce.go       verifyPKCE
--   Oauth/Pairing     oauth/pairing.go    Code, Rotate, generatePairingCode, normalizePairing
--   Oauth/Principal   oauth/principal.go  AddPrincipal, RemovePrincipal, VerifyPrincipal
--   Oauth/Token       oauth/token.go      loadOrCreateKey, Mint, Validate
--   Oauth/Http        oauth/httputil.go   requests, responses, bearerToken
--   Oauth/Server      oauth/server.go     New, Protect, the challenge
--   Oauth/Grant       oauth/grant.go      handleToken
--   Oauth/Authorize   oauth/authorize.go  handleAuthorize
--   Oauth/Register    oauth/register.go, oauth/metadata.go
--   Oauth/Routes      oauth/server.go     RegisterRoutes
--   Oauth/Flow        the steps of the authorization flow, one after the other
--   Oauth/Run         requests, restarts and pairing commands in any order, over time
-- Its state is the record World: what the store holds, how often random bytes were drawn, and the
-- authorization codes in memory. An operation that can fail is a function Exec (Exec.antt), which gives
-- the error or the value and the state that is left in either case; a handler is a function from the
-- state to a response and a state. The instant that time.Now() gives is an argument, in nanoseconds.
--
-- The bridge (the package agentmcp, at the repository's root) is modelled under Bridge:
--   Bridge/Command    commandtree.go, annotations.go    the tree of commands and what is kept out
--   Bridge/Schema     schema.go, flagschema.go          the tools and their options
--   Bridge/Runner     runner.go                         the arguments and identity of a child process
--   Bridge/Blocks     resultblocks.go                   results of tool calls
--   Bridge/Translate  translate.go, fileref_rewrite.go  from a child's output to a result
--   Bridge/Files      fs.go, fs_find.go, fs_content.go  the file tool, with Files/Find and Files/Tool
--   Bridge/Dispatch   jsonrpc.go                        the protocol and callTool
--   Bridge/Http       http.go                           /mcp over HTTP, behind OAuth and CORS
--   Bridge/Mux        http.go                           every path of the HTTP server
--   Bridge/Options    options.go, server.go, fs.go, schema_cmd.go   the options and the server they make
--   Bridge/GroupHelp  grouphelp.go                      what a group tool says of its subcommands
--   Bridge/AccessLog  accesslog.go                      a line for each request
--   Bridge/Banner     banner.go, registration.go        texts for the person who starts the server
--   Bridge/Tailscale  tailscale.go                      the tunnel in front of the listener
--   Bridge/OauthSetup http_oauth.go                     the secret store and the OAuth server
--   Bridge/Startup    server.go                         the command mcp
--   Bridge/Serving    http.go                           serveHTTP, from its start to its return
--   Bridge/Usage      usage.go                          the card of mcp usage
--   Bridge/Pair       pair.go                           the commands pair add, list, remove, rotate, reset
-- A call names a tool; Dispatch finds the command, Runner makes the arguments of the child, with the
-- identity of the principal that Oauth/Token has validated, and Translate reads what the child wrote,
-- with the file roots that Files leaves to that principal. The commands are the tree that cobra gives,
-- their flags as lists in cobra's order.
-- Startup works on the record Machine, which holds the OAuth layer's World, what is outside, the fields
-- oauth and accessLog of Server, and the list of what was done so far; the functions that can fail are
-- Io (Bridge/Io), as Exec but with the messages of their errors, and `defer` is `finally`. Pair works on
-- the same record. A start and a pairing command are runs of one process each.
--
-- The example program (examples/widget/main.go) is modelled under Widget: Items and Settings have the RunE
-- of its commands over the state of a process, Tree the commands that it declares, which are the input of
-- the bridge; what cobra makes of a declaration is a parameter.
--
-- A text is the list of its bytes (Prelude/Text; in a literal, a character beyond ASCII is one number),
-- a map an association list without repeated keys (Prelude/Dict). Loops are recursions on their lists,
-- so nothing runs on fuel unless its module says so.
--
-- What happens over time is a sequence of steps: Oauth/Run has a step for each request and start of the
-- server and each pairing command of another process on its store, with what is left when it fails;
-- Oauth/Refresh/Replay the operations on refresh tokens; Bridge/Serving the turns of serveHTTP, of its
-- goroutine, of the server of net/http and of the environment that cancels.
--
-- What the program calls is a parameter, with its documented behaviour as a hypothesis of the theorems
-- that need it: the keyring, encoding/json, crypto/rand, sha256, the parser of addresses, the JWT
-- library, cobra and the order of its commands, lib-agent-output, the program tailscale and os/exec,
-- the file system of the access log, net.Listen, and the server and the ServeMux of net/http, the
-- latter for plain paths (Oauth/Routes/Paths).
-- Not modelled: mutexes, so that a call of the store is one step and what interleaves are whole requests
-- and commands; the rendering of the approval page and of JSON; sockets; durations and timeouts, which
-- end when the environment says so; how main starts and how cobra parses flags; and the values of a
-- context (WithPrincipal, PrincipalFrom), which the handlers here take as an argument.
pub mod Prelude
pub mod Exec
pub mod Oauth
pub mod Bridge
pub mod Widget
pub mod Tests
