-- ===== src/TcpState/Tests.antt =====
-- The summaries of libsponge/tcp_helpers/tcp_state.cc at concrete states.
use com_net_sponge.Prelude.{◌≡◌, refl, true, false}
use com_net_sponge.TcpConnection
use com_net_sponge.TcpConnection.{TcpConnection, TcpConfig}
use com_net_sponge.TcpState.{listening, syn_was_sent, is_reset, of_state, state, same_state}
use com_net_sponge.TcpState.Names.{new_listens, same_state_iff}

abbrev cfg : TcpConfig
cfg = record { rt_timeout = 1000; recv_capacity = 8; send_capacity = 8 }

told_apart : same_state (of_state is_reset) (of_state syn_was_sent) ≡ false
unfolding same_state of_state
told_apart = refl

recognized : same_state (state (TcpConnection.new cfg 5)) (of_state listening) ≡ true
recognized = (same_state_iff _ _).1 (new_listens cfg 5)
