-- ===== src/Errors.antt =====
-- public/error_code.h: the codes that the modelled code returns, negated by `neg` where it does.
use alarm.Base.{ℕ}

abbrev pub error_tlv_parse_mid : ℕ
error_tlv_parse_mid = 13005

abbrev pub error_tlv_parse_cmd : ℕ
error_tlv_parse_cmd = 13006

abbrev pub error_tlv_parse_dev_id : ℕ
error_tlv_parse_dev_id = 13007

abbrev pub error_tlv_parse_client_id : ℕ
error_tlv_parse_client_id = 13008

abbrev pub error_tlv_send_msg : ℕ
error_tlv_send_msg = 13009

abbrev pub error_tlv_len_not_0 : ℕ
error_tlv_len_not_0 = 13010

abbrev pub error_client_not_build_vc : ℕ
error_client_not_build_vc = 13011

abbrev pub error_cannot_find_dev_for_client : ℕ
error_cannot_find_dev_for_client = 13012

abbrev pub error_item_not_exist : ℕ
error_item_not_exist = 13013

abbrev pub error_client_vc_invalid : ℕ
error_client_vc_invalid = 13014

abbrev pub error_dev_vc_invalid : ℕ
error_dev_vc_invalid = 13015

abbrev pub error_recv_push_msg_resp_timeout : ℕ
error_recv_push_msg_resp_timeout = 13016

abbrev pub error_set_device_fd_cache : ℕ
error_set_device_fd_cache = 11001

abbrev pub error_get_device_fd_from_cache : ℕ
error_get_device_fd_from_cache = 11003

abbrev pub error_fd_invalid : ℕ
error_fd_invalid = 11005

abbrev pub error_push_message : ℕ
error_push_message = 11006

abbrev pub error_device_not_login : ℕ
error_device_not_login = 11019

abbrev pub error_set_device_addr_cache : ℕ
error_set_device_addr_cache = 11022

abbrev pub error_get_device_addr_from_cache : ℕ
error_get_device_addr_from_cache = 11023

abbrev pub error_device_connect : ℕ
error_device_connect = 11017

abbrev pub error_parse_msg : ℕ
error_parse_msg = 12004

abbrev pub error_parse_beacon : ℕ
error_parse_beacon = 11000

abbrev pub error_set_guid_fd_cache : ℕ
error_set_guid_fd_cache = 12001

abbrev pub error_get_user_fd_from_cache : ℕ
error_get_user_fd_from_cache = 12002

abbrev pub error_session_id_not_exist : ℕ
error_session_id_not_exist = 12003
