-- ===== src/Tcp/Flags.antt =====
-- The TCP control flags (src/common/tcp_common/tcp_flags.go).
use odns_measurement_tools.Base.{◌≡◌, ◌↔◌, Bool, true, false, ◌&&◌, arith}

pub record TcpFlags : Type 0 where
  pub fin : Bool
  pub syn : Bool
  pub rst : Bool
  pub psh : Bool
  pub ack : Bool

abbrev pub bool_eq : Bool → Bool → Bool
bool_eq true b = b
bool_eq false true = false
bool_eq false false = true

abbrev pub equals : TcpFlags → TcpFlags → Bool
equals flags tomatch =
    bool_eq flags.fin tomatch.fin
    && bool_eq flags.syn tomatch.syn
    && bool_eq flags.rst tomatch.rst
    && bool_eq flags.psh tomatch.psh
    && bool_eq flags.ack tomatch.ack

abbrev pub psh_ack_flags : TcpFlags
psh_ack_flags = record { fin = false; syn = false; rst = false; psh = true; ack = true }

abbrev pub syn_ack_flags : TcpFlags
syn_ack_flags = record { fin = false; syn = true; rst = false; psh = false; ack = true }

abbrev pub syn_flags : TcpFlags
syn_flags = record { fin = false; syn = true; rst = false; psh = false; ack = false }

abbrev pub fin_ack_flags : TcpFlags
fin_ack_flags = record { fin = true; syn = false; rst = false; psh = false; ack = true }

abbrev pub fin_psh_ack_flags : TcpFlags
fin_psh_ack_flags = record { fin = true; syn = false; rst = false; psh = true; ack = true }

unfoldable pub is_psh_ack : TcpFlags → Bool
is_psh_ack flags = equals flags psh_ack_flags

unfoldable pub is_syn_ack : TcpFlags → Bool
is_syn_ack flags = equals flags syn_ack_flags

unfoldable pub is_syn : TcpFlags → Bool
is_syn flags = equals flags syn_flags

unfoldable pub is_fin_ack : TcpFlags → Bool
is_fin_ack flags = equals flags fin_ack_flags

unfoldable pub is_fin_psh_ack : TcpFlags → Bool
is_fin_psh_ack flags = equals flags fin_psh_ack_flags

-- `Equals` decides equality of flag sets.
pub equals_iff : (f g : TcpFlags) → (equals f g ≡ true) ↔ (f ≡ g)
equals_iff f g = (λ h. ground arith, λ h. ground arith)
