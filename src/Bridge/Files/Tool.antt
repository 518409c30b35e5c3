-- ===== src/Bridge/Files/Tool.antt =====
-- fs_content.go, and the rest of fs.go: the verbs that list a directory and read a file, and the tool.
use lib_agent_mcp.Prelude.{
  drop, ℕ, Bool, false, not, ◌||◌, Option, none, some, List, [], ◌∷◌, ◌++◌, ltb, if◌then◌else◌,
}
use lib_agent_mcp.Prelude.Text.{
  Text, text, text_eq, is_empty, has_prefix, trim_space, contains, join,
}
use lib_agent_mcp.Oauth.World.{Verified}
use lib_agent_mcp.Bridge.Blocks.{
  FileRoot, FileRef, file, OutputError, agent_error, fixable_by_human, ContentBlock, text_block,
  image_block, audio_block, resource_block, ToolResult, help_result, native_error,
}
use lib_agent_mcp.Bridge.Files.{
  Outcome, done, failed, FileInfo, DirEntry, Host, FileRootScope, effective_file_roots,
  root_by_name, root_names, or_ref, fs_records_result,
}
use lib_agent_mcp.Bridge.Files.Find.{fs_find}

-- isTextMime
unfoldable pub is_text_mime : Text → Bool
is_text_mime m =
    has_prefix m (text "text/")
    || (contains m (text "json") || (contains m (text "xml") || contains m (text "javascript")))

-- fileURI
unfoldable pub file_uri : Text → Text → Text
file_uri root_name rel = text "agent-file://" ++ (root_name ++ (text "/" ++ rel))

-- The text of fileToolHelp, of the tool's name and the line of the roots.
unfoldable pub file_tool_usage : Text → Text → Text
file_tool_usage name root_line =
    name
    ++ (text " — read-only local file access\n\nRoots: "
        ++ (root_line
            ++ (text "\n\nVerbs (pass as args):\n"
                ++ (text
                      "  [\"find\",\"<root>\",\"-e\",\"png\",\"-e\",\"jpg\"]  — search a root by extension and/or a bare glob\n"
                    ++ (text
                          "  [\"ls\",\"<root>\",\"<dir?>\"]                  — list a directory (default the root)\n"
                        ++ (text
                              "  [\"get\",\"<root>\",\"<path>\"]                 — return a file's contents\n\n"
                            ++ text
                                "Paths are relative to the root; the host filesystem path is never exposed.\n"))))))

module _ (h : Host) where
  unfoldable pub file_content_block : Text → Text → Text → Text → ContentBlock
  file_content_block root_name rel mime_type bytes =
      if has_prefix mime_type (text "image/")
      then image_block (h.std_b64 bytes) mime_type
      else if has_prefix mime_type (text "audio/")
      then audio_block (h.std_b64 bytes) mime_type
      else if is_text_mime mime_type
      then text_block bytes
      else resource_block (file_uri root_name rel) mime_type (h.std_b64 bytes)

  -- dirEntryRef
  unfoldable pub dir_entry_ref : Text → Text → Text → DirEntry → FileRef
  dir_entry_ref root_name rel abs e =
      if e.is_dir
      then record (h.new_file_ref root_name rel) { mime_type = text "inode/directory" }
      else or_ref (h.new_file_ref root_name rel) (h.file_ref_at root_name rel abs)

  unfoldable pub list_entries : FileRoot → Text → Text → List DirEntry → List FileRef
  list_entries root rel abs [] = []
  list_entries root rel abs (e ∷ es) =
      dir_entry_ref root.name (if text_eq rel (text ".") then e.name else h.path_join rel e.name)
        (h.path_join abs e.name) e
      ∷ list_entries root rel abs es

  abbrev pub listed : FileRoot → Text → Text → Outcome (List DirEntry) → ToolResult
  listed root rel abs (failed e) =
      native_error
        (agent_error (text "cannot list " ++ (h.quote rel ++ (text " in " ++ h.quote root.name))))
  listed root rel abs (done es) = fs_records_result h (list_entries root rel abs es) false

  -- fsError keeps the message of the error, for the agent to fix.
  abbrev pub fs_error : OutputError → ToolResult
  fs_error e = native_error (agent_error e.message)

  abbrev pub list_info : FileRoot → Text → Text → Outcome FileInfo → ToolResult
  list_info root rel abs (failed e) = fs_error e
  list_info root rel abs (done i) =
      if not i.is_dir
      then fs_records_result h
          (or_ref (h.failed_ref root.name rel abs) (h.file_ref_at root.name rel abs) ∷ []) false
      else listed root rel abs (h.read_dir abs)

  abbrev pub list_at : FileRoot → Text → Outcome Text → ToolResult
  list_at root rel (failed e) = native_error e
  list_at root rel (done abs) = list_info root (h.clean rel) abs (h.stat abs)

  -- The directory that the arguments name, "." if none.
  unfoldable pub list_target : List Text → Text
  list_target [] = text "."
  list_target (a ∷ _) = if is_empty (trim_space a) then text "." else a

  unfoldable pub fs_list : FileRoot → List Text → ToolResult
  fs_list root args = list_at root (list_target args) (h.safe_resolve root (list_target args))

  abbrev pub got : FileRoot → Text → FileInfo → Outcome Text → ToolResult
  got root rel i (failed e) = fs_error e
  got root rel i (done bytes) =
      let path = h.clean rel in
      let mime_type = h.sniff_mime_type (h.base path) bytes in
      record {
        content = file_content_block root.name path mime_type bytes ∷ [];
        structured = some (record {
          records =
              file (record (h.new_file_ref root.name path) { size = i.size; mime_type = mime_type })
              ∷ [];
          meta = [];
          error = none;
        });
        is_error = false;
      }

  abbrev pub get_info : ℕ → FileRoot → Text → Text → Outcome FileInfo → ToolResult
  get_info limit root rel abs (failed e) = fs_error e
  get_info limit root rel abs (done i) =
      if i.is_dir
      then native_error (agent_error (rel ++ text " is a directory; use ls"))
      else if ltb limit i.size
      then native_error (record {
        message =
            text "file is "
            ++ (h.decimal i.size
                ++ (text " bytes, over the " ++ (h.decimal limit ++ text "-byte inline limit")));
        fixable_by = fixable_by_human;
        hint = text "the file is too large to return inline over MCP";
      })
      else got root rel i (h.read_file abs)

  abbrev pub get_at : ℕ → FileRoot → Text → Outcome Text → ToolResult
  get_at limit root rel (failed e) = native_error e
  get_at limit root rel (done abs) = get_info limit root rel abs (h.stat abs)

  unfoldable pub fs_get : ℕ → FileRoot → List Text → ToolResult
  fs_get limit root [] =
      native_error (agent_error (text "get needs a file path relative to " ++ h.quote root.name))
  fs_get limit root (rel ∷ _) =
      if is_empty (trim_space rel)
      then native_error
          (agent_error (text "get needs a file path relative to " ++ h.quote root.name))
      else get_at limit root rel (h.safe_resolve root rel)

  -- fileToolHelp, as far as the roots are concerned; `usage` is its text around their names.
  unfoldable pub file_tool_help : (Text → Text) → List FileRoot → Text
  file_tool_help usage roots =
      let names = join (root_names roots) (text ", ") in
      usage (if is_empty names then text "(none available to this caller)" else names)

  abbrev pub verb_of : List Text → Text
  verb_of [] = []
  verb_of (v ∷ _) = v

  abbrev pub on_root :
      (FileRoot → List Text → ToolResult)
      → Text
      → List Text
      → Option FileRoot
      → List FileRoot
      → ToolResult
  on_root verb name rest none roots = native_error (
      agent_error (
        text "unknown root "
        ++ (h.quote name ++ (text "; one of: " ++ join (root_names roots) (text ", ")))))
  on_root verb name rest (some root) roots = verb root rest

  -- The part of handleFileTool after the verb is known, on the arguments behind the verb.
  unfoldable pub run_verb :
      (FileRoot → List Text → ToolResult) → Text → List FileRoot → List Text → ToolResult
  run_verb verb name [] rest = native_error (
      agent_error (
        text
          "no file roots are available to this caller (named principals need a file-root scope)"))
  run_verb verb name (r ∷ rs) [] = native_error (
      agent_error
        (name ++ (text " needs a root name; one of: " ++ join (root_names (r ∷ rs)) (text ", "))))
  run_verb verb name (r ∷ rs) (root ∷ rest) =
      on_root verb root rest (root_by_name (r ∷ rs) root) (r ∷ rs)

  -- handleFileTool, on the roots that the caller has
  unfoldable pub file_tool : (Text → Text) → ℕ → List FileRoot → List Text → ToolResult
  file_tool usage limit roots args =
      let verb = verb_of args in
      let rest = drop 1 args in
      if is_empty verb || text_eq verb (text "help")
      then help_result (file_tool_help usage roots)
      else if text_eq verb (text "find")
      then run_verb (fs_find h) verb roots rest
      else if text_eq verb (text "ls")
      then run_verb fs_list verb roots rest
      else if text_eq verb (text "get")
      then run_verb (fs_get limit) verb roots rest
      else help_result
          (text "unknown verb " ++ (h.quote verb ++ (text "\n\n" ++ file_tool_help usage roots)))

  unfoldable pub handle_file_tool :
      (Text → Text)
      → ℕ
      → List FileRoot
      → Option FileRootScope
      → Option Verified
      → List Text
      → ToolResult
  handle_file_tool usage limit roots scope ctx args =
      file_tool usage limit (effective_file_roots roots scope ctx) args
