-- ===== src/Tcp/Segment.antt =====
-- The packets that the TCP programs send (src/common/tcp_common/tcp_sender.go).
use odns_measurement_tools.Base.{ℕ, ◌+◌, Bool, true, false, List, [], u32}
use odns_measurement_tools.Net.{Ip}
use odns_measurement_tools.Tcp.Flags.{TcpFlags}

-- The fields that the programs set in `layers.IPv4` and `layers.TCP`, and the payload.
pub record Segment : Type 0 where
  pub ttl : ℕ
  pub src_ip : Ip
  pub dst_ip : Ip
  pub ip_id : ℕ
  pub src_port : ℕ
  pub dst_port : ℕ
  pub flags : TcpFlags
  pub seq : ℕ
  pub ack : ℕ
  pub window : ℕ
  pub payload : List ℕ

-- The configuration values that the senders read.
pub record SenderCfg : Type 0 where
  pub iface_ip : Ip
  pub dst_port : ℕ

unfoldable pub send_ack_pos_fin : SenderCfg → Ip → ℕ → ℕ → ℕ → Bool → Segment
send_ack_pos_fin cfg dst_ip src_port seq_num ack_num fin = record {
  ttl = 64;
  src_ip = cfg.iface_ip;
  dst_ip = dst_ip;
  ip_id = 1;
  src_port = src_port;
  dst_port = cfg.dst_port;
  flags = record { fin = fin; syn = false; rst = false; psh = false; ack = true };
  seq = ack_num;
  ack = u32 (seq_num + 1);
  window = 8192;
  payload = [];
}
