-- ===== src/Common/Protocol/Names.antt =====
-- The protocol's names are short enough for `header_name`, and have no NUL in them.
use rpc_broker.Common.Protocol.{
  max_header_name_size, message_id_hdr, operation_hdr, reply_port_hdr, sender_address_hdr,
  service_name_hdr, services_count_hdr, reply_hdr, request_type_hdr, service_params_hdr,
  services_hdr,
}
use rpc_broker.Base.{◌<◌, arith}
use rpc_broker.Base.{length}
use rpc_broker.Base.{Text, NoNul}

abbrev pub IsName : Text → Type 0
IsName name = (length name < max_header_name_size) × NoNul name

pub message_id_hdr-IsName : IsName message_id_hdr
unfolding message_id_hdr
message_id_hdr-IsName = omega arith

pub operation_hdr-IsName : IsName operation_hdr
unfolding operation_hdr
operation_hdr-IsName = omega arith

pub reply_port_hdr-IsName : IsName reply_port_hdr
unfolding reply_port_hdr
reply_port_hdr-IsName = omega arith

pub sender_address_hdr-IsName : IsName sender_address_hdr
unfolding sender_address_hdr
sender_address_hdr-IsName = omega arith

pub service_name_hdr-IsName : IsName service_name_hdr
unfolding service_name_hdr
service_name_hdr-IsName = omega arith

pub services_count_hdr-IsName : IsName services_count_hdr
unfolding services_count_hdr
services_count_hdr-IsName = omega arith

pub reply_hdr-IsName : IsName reply_hdr
unfolding reply_hdr
reply_hdr-IsName = omega arith

pub request_type_hdr-IsName : IsName request_type_hdr
unfolding request_type_hdr
request_type_hdr-IsName = omega arith

pub service_params_hdr-IsName : IsName service_params_hdr
unfolding service_params_hdr
service_params_hdr-IsName = omega arith

pub services_hdr-IsName : IsName services_hdr
unfolding services_hdr
services_hdr-IsName = omega arith
