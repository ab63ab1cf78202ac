-- ===== src/PushQueue/Tests.antt =====
-- Two messages that wait for their responses.
use alarm.Base.{false, [], ◌∷◌, some}
use alarm.Base.Int.{pos}
use alarm.Base.Maps.{nat_eq}
use alarm.PushQueue.{PushMsg, PushQueues}

abbrev message : PushMsg
message = record { push_cnt = 4; dev_id = 99 ∷ []; push_msg = 1 ∷ []; ct = some 30 }

abbrev older : PushMsg
older = record { push_cnt = 4; dev_id = 98 ∷ []; push_msg = 2 ∷ []; ct = some 20 }

abbrev idle : PushQueues
idle = record {
  push_msg_queue = [];
  wait_finish_msg_queue = [];
  completed = (10, pos 0) ∷ [];
  signals = 0;
  stop = false;
}

abbrev one_waits : PushQueues
one_waits = record idle { wait_finish_msg_queue = (4, older) ∷ [] }
