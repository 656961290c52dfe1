-- ===== src/Torrents/Session.antt =====
-- The settings of the torrent session that src/app/TorrentManager.cpp changes:
-- `setDownloadSpeedLimit`, `setUploadSpeedLimit`, `configureDiscovery` and `setProxyConfig`.
use hypertube.Common.{ℤ, at_least_zero, Bool, nat_beq, ℕ, Text, is_empty, if◌then◌else◌}

-- `lt::settings_pack::proxy_type_t`, as far as it is used.
pub data SessionProxy : Type 0 where
  no_proxy socks5 socks5_pw http http_pw : SessionProxy

pub record SessionSettings : Type 0 where
  pub download_rate_limit : ℤ
  pub upload_rate_limit : ℤ
  pub enable_dht : Bool
  pub enable_upnp : Bool
  pub enable_natpmp : Bool
  pub proxy_hostname : Text
  pub proxy_port : ℤ
  pub proxy_username : Text
  pub proxy_password : Text
  pub proxy_type : SessionProxy

unfoldable pub set_session_download_limit : ℤ → SessionSettings → SessionSettings
set_session_download_limit n s = record s { download_rate_limit = at_least_zero n }

unfoldable pub set_session_upload_limit : ℤ → SessionSettings → SessionSettings
set_session_upload_limit n s = record s { upload_rate_limit = at_least_zero n }

unfoldable pub configure_discovery : Bool → Bool → Bool → SessionSettings → SessionSettings
configure_discovery dht upnp natpmp s = record s {
  enable_dht = dht;
  enable_upnp = upnp;
  enable_natpmp = natpmp;
}

-- 1 asks for SOCKS5 and 2 for HTTP, each with a password where there is a user name.
unfoldable pub session_proxy : ℕ → Text → SessionProxy
session_proxy type username =
    if nat_beq type 1
    then (if is_empty username then socks5 else socks5_pw)
    else if nat_beq type 2
    then (if is_empty username then http else http_pw)
    else no_proxy

unfoldable pub set_session_proxy : Text → ℤ → Text → Text → ℕ → SessionSettings → SessionSettings
unfolding session_proxy
set_session_proxy hostname port username password type s = record s {
  proxy_hostname = hostname;
  proxy_port = port;
  proxy_username = username;
  proxy_password = password;
  proxy_type = session_proxy type username;
}
