-- ===== src/Management/Policy.antt =====
-- The policy of a device as the table has it (src/nemo_management.rs): a JSON text, of which only known
-- options are kept. JSON and the options of the client's library are parameters.
use rustdesk_server_nemo.Base.{
  ℕ, Bool, false, not, ◌||◌, Option, none, some, List, [], ◌∷◌, Str, Dict, codes, str_mem, trim,
  byte_len, ltb, if◌then◌else◌,
}
use rustdesk_server_nemo.Management.Secrets.{ManagementPolicy}

-- `MAX_MANAGEMENT_POLICY_VALUE_LEN`.
abbrev pub max_management_policy_value_len : ℕ
max_management_policy_value_len = 4096

-- `CLIENT_MANAGEMENT_POLICY_KEYS`.
unfoldable pub client_management_policy_keys : List Str
client_management_policy_keys =
    codes "nemo-require-secure-rendezvous"
    ∷ codes "disable-udp"
    ∷ codes "nemo-sealed-request"
    ∷ codes "nemo-auto-update"
    ∷ codes "nemo-direct-endpoints"
    ∷ codes "nemo-direct-timeout-ms"
    ∷ codes "nemo-knock-enabled"
    ∷ codes "nemo-knock-port"
    ∷ codes "nemo-knock-key"
    ∷ codes "nemo-knock-hmac-key"
    ∷ codes "nemo-knock-delay-ms"
    ∷ codes "nemo-knock-user"
    ∷ codes "nemo-knock-source-ip"
    ∷ codes "view_only"
    ∷ codes "show_monitors_toolbar"
    ∷ codes "collapse_toolbar"
    ∷ codes "show_remote_cursor"
    ∷ codes "follow_remote_cursor"
    ∷ codes "follow_remote_window"
    ∷ codes "zoom-cursor"
    ∷ codes "show_quality_monitor"
    ∷ codes "disable_audio"
    ∷ codes "enable-remote-printer"
    ∷ codes "enable-file-copy-paste"
    ∷ codes "disable_clipboard"
    ∷ codes "lock_after_session_end"
    ∷ codes "privacy_mode"
    ∷ codes "touch-mode"
    ∷ codes "i444"
    ∷ codes "reverse_mouse_wheel"
    ∷ codes "swap-left-right-mouse"
    ∷ codes "displays_as_individual_windows"
    ∷ codes "use_all_my_displays_for_the_remote_session"
    ∷ codes "view_style"
    ∷ codes "scroll_style"
    ∷ codes "edge-scroll-edge-thickness"
    ∷ codes "image_quality"
    ∷ codes "custom_image_quality"
    ∷ codes "custom-fps"
    ∷ codes "codec-preference"
    ∷ codes "sync-init-clipboard"
    ∷ codes "theme"
    ∷ codes "lang"
    ∷ codes "remote-menubar-drag-left"
    ∷ codes "remote-menubar-drag-right"
    ∷ codes "hideAbTagsPanel"
    ∷ codes "enable-confirm-closing-tabs"
    ∷ codes "enable-open-new-connections-in-tabs"
    ∷ codes "use-texture-render"
    ∷ codes "allow-d3d-render"
    ∷ codes "enable-check-update"
    ∷ codes "allow-auto-update"
    ∷ codes "sync-ab-with-recent-sessions"
    ∷ codes "sync-ab-tags"
    ∷ codes "filter-ab-by-intersection"
    ∷ codes "access-mode"
    ∷ codes "enable-keyboard"
    ∷ codes "enable-clipboard"
    ∷ codes "enable-file-transfer"
    ∷ codes "enable-camera"
    ∷ codes "enable-terminal"
    ∷ codes "terminal-persistent"
    ∷ codes "enable-audio"
    ∷ codes "enable-tunnel"
    ∷ codes "enable-remote-restart"
    ∷ codes "enable-record-session"
    ∷ codes "enable-block-input"
    ∷ codes "enable-privacy-mode"
    ∷ codes "enable-perm-change-in-accept-window"
    ∷ codes "allow-remote-config-modification"
    ∷ codes "allow-numeric-one-time-password"
    ∷ codes "one-way-file-transfer"
    ∷ codes "nemo-permanent-password"
    ∷ codes "nemo-alias"
    ∷ codes "nemo-require-login"
    ∷ codes "nemo-require-encrypted-session"
    ∷ codes "nemo-logged-in-user"
    ∷ codes "nemo-api-cert-fingerprint"
    ∷ codes "nemo-outbound-enabled"
    ∷ codes "nemo-outbound-targets"
    ∷ codes "enable-lan-discovery"
    ∷ codes "direct-server"
    ∷ codes "direct-access-port"
    ∷ codes "whitelist"
    ∷ codes "allow-auto-disconnect"
    ∷ codes "auto-disconnect-timeout"
    ∷ codes "allow-only-conn-window-open"
    ∷ codes "allow-auto-record-incoming"
    ∷ codes "allow-auto-record-outgoing"
    ∷ codes "video-save-directory"
    ∷ codes "enable-abr"
    ∷ codes "allow-remove-wallpaper"
    ∷ codes "allow-always-software-render"
    ∷ codes "allow-linux-headless"
    ∷ codes "enable-hwcodec"
    ∷ codes "approve-mode"
    ∷ codes "verification-method"
    ∷ codes "temporary-password-length"
    ∷ codes "proxy-url"
    ∷ codes "proxy-username"
    ∷ codes "proxy-password"
    ∷ codes "custom-rendezvous-server"
    ∷ codes "api-server"
    ∷ codes "key"
    ∷ codes "allow-websocket"
    ∷ codes "preset-address-book-name"
    ∷ codes "preset-address-book-tag"
    ∷ codes "preset-address-book-alias"
    ∷ codes "preset-address-book-password"
    ∷ codes "preset-address-book-note"
    ∷ codes "preset-device-username"
    ∷ codes "preset-device-name"
    ∷ codes "preset-note"
    ∷ codes "enable-directx-capture"
    ∷ codes "enable-android-software-encoding-half-scale"
    ∷ codes "enable-trusted-devices"
    ∷ codes "av1-test"
    ∷ codes "trackpad-speed"
    ∷ codes "register-device"
    ∷ codes "relay-server"
    ∷ codes "ice-servers"
    ∷ codes "file-transfer-max-files"
    ∷ codes "disable-udp"
    ∷ codes "allow-insecure-tls-fallback"
    ∷ codes "show-virtual-mouse"
    ∷ codes "show-virtual-joystick"
    ∷ codes "enable-flutter-http-on-rust"
    ∷ codes "allow-ask-for-note"
    ∷ codes "display-name"
    ∷ codes "avatar"
    ∷ codes "preset-device-group-name"
    ∷ codes "preset-user-name"
    ∷ codes "preset-strategy-name"
    ∷ codes "remove-preset-password-warning"
    ∷ codes "hide-security-settings"
    ∷ codes "hide-network-settings"
    ∷ codes "hide-server-settings"
    ∷ codes "hide-proxy-settings"
    ∷ codes "hide-remote-printer-settings"
    ∷ codes "hide-websocket-settings"
    ∷ codes "hide-stop-service"
    ∷ codes "enable-udp-punch"
    ∷ codes "enable-ipv6-punch"
    ∷ codes "hide-username-on-card"
    ∷ codes "hide-help-cards"
    ∷ codes "default-connect-password"
    ∷ codes "hide-tray"
    ∷ codes "one-way-clipboard-redirection"
    ∷ codes "allow-logon-screen-password"
    ∷ codes "allow-deep-link-password"
    ∷ codes "allow-deep-link-server-settings"
    ∷ codes "one-way-file-transfer"
    ∷ codes "allow-https-21114"
    ∷ codes "use-raw-tcp-for-api"
    ∷ codes "allow-hostname-as-id"
    ∷ codes "hide-powered-by-me"
    ∷ codes "main-window-always-on-top"
    ∷ codes "disable-change-permanent-password"
    ∷ codes "disable-change-id"
    ∷ codes "disable-unlock-pin"
    ∷ codes "remoteMenubarState"
    ∷ codes "peer-sorting"
    ∷ codes "peer-tab-index"
    ∷ codes "peer-tab-order"
    ∷ codes "peer-tab-visible"
    ∷ codes "peer-card-ui-type"
    ∷ codes "current-ab-name"
    ∷ codes "allow-remote-cm-modification"
    ∷ codes "printer-incomming-job-action"
    ∷ codes "allow-printer-auto-print"
    ∷ codes "printer-selected-name"
    ∷ codes "disable-floating-window"
    ∷ codes "floating-window-size"
    ∷ codes "floating-window-untouchable"
    ∷ codes "floating-window-transparency"
    ∷ codes "floating-window-svg"
    ∷ codes "keep-screen-on"
    ∷ codes "keep-awake-during-incoming-sessions"
    ∷ codes "keep-awake-during-outgoing-sessions"
    ∷ codes "disable-group-panel"
    ∷ codes "disable-discovery-panel"
    ∷ codes "pre-elevate-service"
    ∷ codes "nemo-company-network-only"
    ∷ codes "nemo-management-enabled"
    ∷ codes "nemo-management-server"
    ∷ codes "nemo-management-public-key"
    ∷ []

-- `serde_json` on a policy, and the three lists of settings in the client's library.
pub record PolicyText : Type 0 where
  pub from_str : Str → Option ManagementPolicy
  pub is_library_key : Str → Bool

-- `ManagementPolicy::default()`.
abbrev pub default_policy : ManagementPolicy
default_policy = record { allow_user_override = false; options = [] }

module _ (text : PolicyText) where
  -- `is_management_policy_key`.
  unfoldable pub is_management_policy_key : Str → Bool
  is_management_policy_key key =
      str_mem key client_management_policy_keys || text.is_library_key key

  -- `sanitize_management_policy_value`.
  unfoldable pub sanitize_management_policy_value : Str → Str → Option Str
  sanitize_management_policy_value key value =
      if not (is_management_policy_key key)
      then none
      else if ltb max_management_policy_value_len (byte_len (trim value))
      then none
      else some (trim value)

  -- The `retain` of `sanitize_management_policy`.
  unfoldable pub sanitize_options : Dict Str → Dict Str
  sanitize_options [] = []
  sanitize_options ((key, value) ∷ options) =
      let rest = sanitize_options options in
      elim (sanitize_management_policy_value key value) [
        | none ↦ rest
        | some normalized ↦ (key, normalized) ∷ rest
      ]

  -- `sanitize_management_policy`.
  unfoldable pub sanitize_management_policy : ManagementPolicy → ManagementPolicy
  unfolding sanitize_options sanitize_management_policy_value
  sanitize_management_policy policy = record policy { options = sanitize_options policy.options }

  -- `management_policy_from_peer`.
  unfoldable pub management_policy_from_peer : Option Str → ManagementPolicy
  management_policy_from_peer none = default_policy
  management_policy_from_peer (some value) = elim (text.from_str value) [
    | none ↦ default_policy
    | some policy ↦ sanitize_management_policy policy
  ]
