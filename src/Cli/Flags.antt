-- ===== src/Cli/Flags.antt =====
-- The flags of the subcommands, as the package flag leaves them, with the arguments that follow
-- (src/dns_tool.go).
use odns_measurement_tools.Base.{Bool, List}
use odns_measurement_tools.Text.Defs.{Text}
use odns_measurement_tools.Text.Number.{ℤ}

pub record ScannerFlags : Type 0 where
  pub help_flag : Bool
  pub mode_flag : Text
  pub mode_alias : Text
  pub prot_flag : Text
  pub prot_alias : Text
  pub config_path : Text
  pub config_alias : Text
  pub pktrate : ℤ
  pub pktrate_alias : ℤ
  pub outpath : Text
  pub outpath_alias : Text
  pub profile : Bool
  pub debug_level : ℤ
  pub debug_alias : ℤ
  pub ethernet_header : Bool
  pub ethernet_alias : Bool
  pub qname : Text
  pub qname_alias : Text
  pub port : ℤ
  pub args : List Text

pub record ServerFlags : Type 0 where
  pub help_flag : Bool
  pub config_path : Text
  pub config_alias : Text

pub record QminScannerFlags : Type 0 where
  pub help_flag : Bool
  pub resolver_flag : Bool
  pub resolver_alias : Bool
  pub config_path : Text
  pub config_alias : Text
  pub args : List Text

pub record PostProcFlags : Type 0 where
  pub output_path : Text
  pub recursive : Bool
  pub recursive_alias : Bool
  pub help_flag : Bool
  pub resolver_matching : Bool
  pub combine_flag : Bool
  pub metadata_path : Text
  pub args : List Text
