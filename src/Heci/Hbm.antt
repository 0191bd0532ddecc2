-- ===== src/Heci/Hbm.antt =====
-- src/heci/hbm.rs: the messages between the host and the bus of the management engine. Each
-- request has its bytes, each response is what `&*(buf.as_ptr() as *const _)` reads in a buffer.
use amt_uefi_boot_app.Prelude.{ℕ, List, ◌∷◌, [], get_or, slice, read_le32}

abbrev pub hbm_cmd_host_version : ℕ
hbm_cmd_host_version = 0x01

abbrev pub hbm_cmd_host_version_resp : ℕ
hbm_cmd_host_version_resp = 0x81

abbrev pub hbm_cmd_host_enum : ℕ
hbm_cmd_host_enum = 0x04

abbrev pub hbm_cmd_host_enum_resp : ℕ
hbm_cmd_host_enum_resp = 0x84

abbrev pub hbm_cmd_host_client_prop : ℕ
hbm_cmd_host_client_prop = 0x05

abbrev pub hbm_cmd_host_client_prop_resp : ℕ
hbm_cmd_host_client_prop_resp = 0x85

abbrev pub hbm_cmd_connect : ℕ
hbm_cmd_connect = 0x06

abbrev pub hbm_cmd_connect_resp : ℕ
hbm_cmd_connect_resp = 0x86

abbrev pub hbm_cmd_flow_control : ℕ
hbm_cmd_flow_control = 0x08

abbrev pub hbm_cmd_client_disconnect_req : ℕ
hbm_cmd_client_disconnect_req = 0x07

abbrev pub hbm_cmd_client_disconnect_resp : ℕ
hbm_cmd_client_disconnect_resp = 0x87

abbrev pub hbm_major_version : ℕ
hbm_major_version = 2

abbrev pub hbm_minor_version : ℕ
hbm_minor_version = 0

pub record HbmFlowControl : Type 0 where
  pub cmd : ℕ
  pub me_addr : ℕ
  pub host_addr : ℕ
  pub reserved : List ℕ

abbrev pub flow_control_bytes : HbmFlowControl → List ℕ
flow_control_bytes req = req.cmd ∷ req.me_addr ∷ req.host_addr ∷ req.reserved

pub record HbmHostVersionReq : Type 0 where
  pub cmd : ℕ
  pub minor : ℕ
  pub major : ℕ
  pub reserved : ℕ

abbrev pub version_bytes : HbmHostVersionReq → List ℕ
version_bytes req = req.cmd ∷ req.minor ∷ req.major ∷ req.reserved ∷ []

pub record HbmHostVersionResp : Type 0 where
  pub cmd : ℕ
  pub minor : ℕ
  pub major : ℕ
  pub supported : ℕ

abbrev pub version_resp : List ℕ → HbmHostVersionResp
version_resp buf = record {
  cmd = get_or buf 0 0;
  minor = get_or buf 1 0;
  major = get_or buf 2 0;
  supported = get_or buf 3 0;
}

pub record HbmHostEnumReq : Type 0 where
  pub cmd : ℕ
  pub reserved : List ℕ

abbrev pub enum_bytes : HbmHostEnumReq → List ℕ
enum_bytes req = req.cmd ∷ req.reserved

pub record HbmHostEnumResp : Type 0 where
  pub cmd : ℕ
  pub reserved : List ℕ
  pub valid_addresses : List ℕ

abbrev pub enum_resp : List ℕ → HbmHostEnumResp
enum_resp buf = record {
  cmd = get_or buf 0 0;
  reserved = slice buf 1 4;
  valid_addresses = slice buf 4 36;
}

pub record HbmClientPropReq : Type 0 where
  pub cmd : ℕ
  pub me_addr : ℕ
  pub reserved : List ℕ

abbrev pub client_prop_bytes : HbmClientPropReq → List ℕ
client_prop_bytes req = req.cmd ∷ req.me_addr ∷ req.reserved

pub record HbmClientPropResp : Type 0 where
  pub cmd : ℕ
  pub me_addr : ℕ
  pub status : ℕ
  pub reserved : ℕ
  pub uuid : List ℕ
  pub protocol_ver : ℕ
  pub max_connections : ℕ
  pub fixed_address : ℕ
  pub single_recv_buf : ℕ
  pub max_msg_length : ℕ

abbrev pub client_prop_resp : List ℕ → HbmClientPropResp
client_prop_resp buf = record {
  cmd = get_or buf 0 0;
  me_addr = get_or buf 1 0;
  status = get_or buf 2 0;
  reserved = get_or buf 3 0;
  uuid = slice buf 4 20;
  protocol_ver = get_or buf 20 0;
  max_connections = get_or buf 21 0;
  fixed_address = get_or buf 22 0;
  single_recv_buf = get_or buf 23 0;
  max_msg_length = read_le32 buf 24;
}

pub record HbmConnectReq : Type 0 where
  pub cmd : ℕ
  pub me_addr : ℕ
  pub host_addr : ℕ
  pub reserved : ℕ

abbrev pub connect_bytes : HbmConnectReq → List ℕ
connect_bytes req = req.cmd ∷ req.me_addr ∷ req.host_addr ∷ req.reserved ∷ []

pub record HbmConnectResp : Type 0 where
  pub cmd : ℕ
  pub me_addr : ℕ
  pub host_addr : ℕ
  pub status : ℕ

abbrev pub connect_resp : List ℕ → HbmConnectResp
connect_resp buf = record {
  cmd = get_or buf 0 0;
  me_addr = get_or buf 1 0;
  host_addr = get_or buf 2 0;
  status = get_or buf 3 0;
}
