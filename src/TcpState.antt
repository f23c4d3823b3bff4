-- ===== src/TcpState.antt =====
-- libsponge/tcp_helpers/tcp_state.hh and tcp_state.cc: the summary of a connection, and the official
-- names of TCP states. Each summary string is a constructor.
pub mod Names
mod Tests
use com_net_sponge.Prelude.{
  ℕ, ◌+◌, Bool, true, false, not, ◌&&◌, ltb, ◌==◌, if◌then◌else◌, Option, none, some,
}
use mathlib.Core.Logic.{ite}
use com_net_sponge.Prelude.Words.{add64}
use com_net_sponge.ByteStream
use com_net_sponge.TcpReceiver
use com_net_sponge.TcpReceiver.{TcpReceiver}
use com_net_sponge.TcpSender
use com_net_sponge.TcpSender.{TcpSender}
use com_net_sponge.TcpConnection.{TcpConnection}

-- `TCPReceiverStateSummary`.
pub data ReceiverSummary : Type 0 where
  receiver_error listen syn_recv fin_recv : ReceiverSummary

-- `TCPSenderStateSummary`.
pub data SenderSummary : Type 0 where
  sender_error closed syn_sent syn_acked fin_sent fin_acked : SenderSummary

pub record TcpState : Type 0 where
  pub sender : SenderSummary
  pub receiver : ReceiverSummary
  pub active : Bool
  pub linger_after_streams_finish : Bool

-- `TCPState::State`.
pub data State : Type 0 where
  listening syn_rcvd syn_was_sent established close_wait last_ack : State
  fin_wait_1 fin_wait_2 closing time_wait is_closed is_reset : State

-- The constructor from an official name.
unfoldable pub of_state : State → TcpState
of_state listening = record {
  sender = closed;
  receiver = listen;
  active = true;
  linger_after_streams_finish = true;
}
of_state syn_rcvd = record {
  sender = syn_sent;
  receiver = syn_recv;
  active = true;
  linger_after_streams_finish = true;
}
of_state syn_was_sent = record {
  sender = syn_sent;
  receiver = listen;
  active = true;
  linger_after_streams_finish = true;
}
of_state established = record {
  sender = syn_acked;
  receiver = syn_recv;
  active = true;
  linger_after_streams_finish = true;
}
of_state close_wait = record {
  sender = syn_acked;
  receiver = fin_recv;
  active = true;
  linger_after_streams_finish = false;
}
of_state last_ack = record {
  sender = fin_sent;
  receiver = fin_recv;
  active = true;
  linger_after_streams_finish = false;
}
of_state closing = record {
  sender = fin_sent;
  receiver = fin_recv;
  active = true;
  linger_after_streams_finish = true;
}
of_state fin_wait_1 = record {
  sender = fin_sent;
  receiver = syn_recv;
  active = true;
  linger_after_streams_finish = true;
}
of_state fin_wait_2 = record {
  sender = fin_acked;
  receiver = syn_recv;
  active = true;
  linger_after_streams_finish = true;
}
of_state time_wait = record {
  sender = fin_acked;
  receiver = fin_recv;
  active = true;
  linger_after_streams_finish = true;
}
of_state is_reset = record {
  sender = sender_error;
  receiver = receiver_error;
  active = false;
  linger_after_streams_finish = false;
}
of_state is_closed = record {
  sender = fin_acked;
  receiver = fin_recv;
  active = false;
  linger_after_streams_finish = false;
}

unfoldable pub receiver_summary : TcpReceiver → ReceiverSummary
receiver_summary r =
    if r.reassembler.output.error then receiver_error else elim (TcpReceiver.ackno r) [
      | none ↦ listen
      | some a ↦ (if r.reassembler.output.input_ended then fin_recv else syn_recv)
    ]

unfoldable pub sender_summary : TcpSender → SenderSummary
sender_summary s =
    if s.stream.error
    then sender_error
    else if s.next_seqno == 0
    then closed
    else if s.next_seqno == TcpSender.bytes_in_flight s
    then syn_sent
    else if not (ByteStream.eof s.stream)
    then syn_acked
    else if ltb s.next_seqno (add64 s.stream.bytes_written 2)
    then syn_acked
    else if not (TcpSender.bytes_in_flight s == 0)
    then fin_sent
    else fin_acked

-- The constructor from a sender and a receiver, and `TCPConnection::state`.
unfoldable pub summarize : TcpSender → TcpReceiver → Bool → Bool → TcpState
summarize s r active linger = record {
  sender = sender_summary s;
  receiver = receiver_summary r;
  active = active;
  linger_after_streams_finish = (if active then linger else false);
}

unfoldable pub state : TcpConnection → TcpState
unfolding summarize
state c = summarize c.sender c.receiver c.active c.linger_after_streams_finish

ReceiverSummary-discrete : Discrete ReceiverSummary
ReceiverSummary-discrete = hlevel

SenderSummary-discrete : Discrete SenderSummary
SenderSummary-discrete = hlevel

same_flag : Bool → Bool → Bool
same_flag true b = b
same_flag false b = not b

-- `operator==`.
unfoldable pub same_state : TcpState → TcpState → Bool
unfolding same_flag ReceiverSummary-discrete SenderSummary-discrete
same_state a b =
    same_flag a.active b.active
    && same_flag a.linger_after_streams_finish b.linger_after_streams_finish
    && ite (SenderSummary-discrete a.sender b.sender) true false
    && ite (ReceiverSummary-discrete a.receiver b.receiver) true false
