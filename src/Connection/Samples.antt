-- ===== src/Connection/Samples.antt =====
-- Connections that the tests use.
use libbtcnet.Base.{true, false, [], ◌∷◌}
use libbtcnet.Base.Int.{pos}
use libbtcnet.Message.{NetworkConfig}
use libbtcnet.Connection.{
  SockAddr, inet, CConnectionBase, CConnectionOptions, resolve_connect, CConnection,
  resolved_connection, unset_base, unset_proxy, ip_bits,
}

abbrev pub net : NetworkConfig
net = record {
  header_msg_size_offset = 1;
  header_msg_size_size = 4;
  header_size = 5;
  message_max_size = 16;
  message_start = 0xf9 ∷ [];
  chunk_size = 0;
}

abbrev pub options : CConnectionOptions
options = record {
  whitelisted = false;
  one_shot = false;
  persistent = true;
  do_resolve = resolve_connect;
  retries = pos 2;
  conn_timeout = pos 5;
  recv_timeout = pos 60;
  send_timeout = pos 60;
  initial_timeout = pos 60;
  max_send_buffer = pos 5000;
  retry_interval = pos 10;
  max_lookup_results = pos 0;
  family = ip_bits;
}

abbrev pub local : SockAddr
local = inet (127 ∷ 0 ∷ 0 ∷ 1 ∷ []) (32 ∷ 141 ∷ [])

abbrev pub remote : SockAddr
remote = inet (10 ∷ 0 ∷ 0 ∷ 7 ∷ []) (32 ∷ 141 ∷ [])

abbrev pub direct_conn : CConnection
direct_conn = resolved_connection options net local

abbrev pub seed_base : CConnectionBase
seed_base = record unset_base {
  host = b's' ∷ b'e' ∷ b'e' ∷ b'd' ∷ [];
  port = 8333;
  is_dns = true;
  is_set = true;
}

abbrev pub dns_conn : CConnection
dns_conn = record { base = seed_base; proxy = unset_proxy; opts = options; net_config = net }
