-- ===== src/Tlv/Tests.antt =====
-- Concrete messages of the protocol.
use alarm.Timers.{PushMsgContext}

abbrev waiting_context : PushMsgContext
waiting_context = record { recv_mid = 3; recv_cfd = 8; push_mid = 41; response_type = 1003 }
