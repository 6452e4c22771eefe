-- ===== src/Relay/Opcode.antt =====
-- The opcodes of the wire protocol that the relay names. Their numbers belong to the protocol
-- library and are a parameter where the code compares them.

pub data Opcode : Type 0 where
  hello welcome reauth reauth_ok error fatal goaway : Opcode
  state_sync state_sync_ok state_set state_set_ok state_acl_sync state_acl_ok : Opcode
  state_resync state_dict state_snapshot state_patch : Opcode
  event_sync event_sync_ok event_acl_sync event_acl_ok : Opcode
  subscribe subscribe_ok unsubscribe unsubscribe_ok event topic_dict : Opcode
  function_sync function_sync_ok function_dict : Opcode
  call call_dispatch call_accepted call_result call_error call_cancel call_credit : Opcode
  presence_snapshot presence_change home_status : Opcode
