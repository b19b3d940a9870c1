-- ===== src/Scripts.antt =====
-- The world script of src/PlayerbotsMCPScripts.cpp and `ReloadPlayerbotMCPConfig` of
-- src/Bot/MCP/PlayerbotMCPConfig.cpp: when the server is started and stopped. The configuration of the
-- core, the environment and the network are given; a line of the log is told by its kind.
pub mod Boot
use mod_playerbots_mcp.Base.{
  ℕ, ◌≡◌, Bool, true, false, not, Option, none, some, Bytes, ◌==◌, if◌then◌else◌, is_empty,
}
use mod_playerbots_mcp.Lifecycle.{Impl, new_impl, start, stop, run_ends}
use mod_playerbots_mcp.Protocol.Types.{TokenDigest}
use mod_playerbots_mcp.Settings.{Settings, load_settings}

-- What the core gives for a key, with "" as the default.
unfoldable pub option_of : (Bytes → Bytes) → Bytes → Option Bytes
option_of get key = if is_empty (get key) then none else some (get key)

-- The global settings and the script's server.
pub record Script : Type 0 where
  pub settings : Settings
  pub server : Impl

-- Before the configuration is loaded.
abbrev pub new_script : Script
new_script = record { settings = record { enable = true; port = 0 }; server = new_impl }

-- What `OnBeforeWorldInitialized` logs.
pub data Report : Type 0 where
  disabled silent : Report
  listening stayed_disabled : ℕ → Report

-- `OnAfterConfigLoad`.
unfoldable pub on_after_config_load : (Bytes → Bytes) → Script → Script
on_after_config_load get s = record s { settings = load_settings (option_of get) }

-- `OnShutdown`.
unfoldable pub on_shutdown : Script → Script
on_shutdown s = record s { server = stop s.server }

module _ (digest : Bytes → TokenDigest) (binds : ℕ → Bool) where
  -- `OnBeforeWorldInitialized`, given the value of the environment variable.
  unfoldable pub on_before_world_initialized : Option Bytes → Script → Script × Report
  on_before_world_initialized token s =
      let port = s.settings.port in
      let (ok, server) = start digest binds port token s.server in
      if not s.settings.enable
      then (s, disabled)
      else if port == 0
      then (s, silent)
      else (record s { server = server }, if ok then listening port else stayed_disabled port)

  -- What the core calls, in any order, and the end of the server's worker, if there is one.
  pub data Called : Script → Type 0 where
    constructed : Called new_script
    configured : {s : Script} (get : Bytes → Bytes) → Called s → Called (on_after_config_load get s)
    initialized :
        {s : Script} (token : Option Bytes)
        → Called s
        → Called (on_before_world_initialized token s).0
    shut_down : {s : Script} → Called s → Called (on_shutdown s)
    worker_ended :
        {s : Script}
        → s.server.joinable ≡ true
        → Called s
        → Called (record s { server = run_ends s.server })
