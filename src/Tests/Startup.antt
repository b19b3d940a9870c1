-- ===== src/Tests/Startup.antt =====
-- The settings, and a server that is started and stopped.
use mod_playerbots_mcp.Base.{
  ℕ, [], ◌≡◌, ◌≤◌, ◌<◌, ◌↔◌, refl, Bool, true, not, Option, some, Bytes, bytes, length, str_eq,
  ◌==◌, if◌then◌else◌, arith,
}
use mod_playerbots_mcp.Lifecycle.Sound.{Sound, Idle}
use mod_playerbots_mcp.Protocol.Print.{to_string}
use mod_playerbots_mcp.Protocol.Types.{max_uint16, min_token_bytes}
use mod_playerbots_mcp.Scripts.{
  Script, new_script, listening, on_after_config_load, on_before_world_initialized, on_shutdown,
  Called, constructed, configured as called_with, initialized,
}
use mod_playerbots_mcp.Scripts.Boot.{Called-Sound, on_before_world_initialized-listening_iff}
use mod_playerbots_mcp.Settings.{load_settings}
use mod_playerbots_mcp.Settings.Read.{load_settings-to_string}
use mod_playerbots_mcp.Tests.Payloads.{digest}

abbrev configured : Bytes → Bytes → Bytes → Option Bytes
configured enable port key =
    if str_eq key (bytes "PlayerbotsMCP.Enable") then some enable else some port

load_settings-to_string_example :
    load_settings (configured (to_string 1) (to_string 8099))
    ≡ record { enable = not (1 == 0); port = 8099 }
unfolding str_eq
load_settings-to_string_example =
    load_settings-to_string (configured (to_string 1) (to_string 8099)) 1 8099 (omega arith)
      (omega arith) refl refl

abbrev long_token : Bytes
long_token = bytes "0123456789abcdef0123456789abcdef"

-- Every port but one is taken.
abbrev binds : ℕ → Bool
binds port = port == 8099

-- The core reads the configuration and starts the world, twice over.
abbrev options : Bytes → Bytes
options key = if str_eq key (bytes "PlayerbotsMCP.Port") then bytes "8099" else []

abbrev booted : Script
booted =
    (on_before_world_initialized digest binds (some long_token)
      (on_after_config_load options new_script)).0

booted-Called : Called digest binds booted
booted-Called = initialized (some long_token) (called_with options constructed)

Called-Sound_example :
    Sound digest binds booted.server × Idle digest binds (on_shutdown booted).server
Called-Sound_example = Called-Sound digest binds booted booted-Called

new_impl-Idle : Idle digest binds (on_after_config_load options new_script).server
unfolding on_after_config_load
new_impl-Idle = (refl, refl, refl, refl, refl)

on_before_world_initialized-listening_iff_example :
    ((on_before_world_initialized digest binds
        (some long_token)
        (on_after_config_load options new_script)).1
      ≡ listening 8099)
    ↔ (((on_after_config_load options new_script).settings.enable ≡ true)
        × (8099 ≡ (on_after_config_load options new_script).settings.port)
        × (0 < 8099)
        × (8099 ≤ max_uint16)
        × ((token : Bytes) × (some long_token ≡ some token) × (min_token_bytes ≤ length token))
        × (binds 8099 ≡ true))
on_before_world_initialized-listening_iff_example =
    on_before_world_initialized-listening_iff digest binds (some long_token)
      (on_after_config_load options new_script) 8099 new_impl-Idle
