-- ===== src/EventLoop/Tests.antt =====
-- Runs of libsponge/util/eventloop.cc, with one rule that counts the reads of its descriptor.
use com_net_sponge.Prelude.{false, true, ◌≡◌, refl, List, [], ◌∷◌, none, some}
use com_net_sponge.EventLoop.{
  Rule, Revents, direction_in, reported, poll_failed, success, exit, wait_next_event, set_up,
  defunct, something_to_poll, asked, pollfd_of, polled, serve, turn, first_report, ready, call,
  rules_of,
}
use com_net_sponge.EventLoop.Laws.{poll_failed_ignored}
use com_net_sponge.FileDescriptor.{FdWrapper, register_read}

abbrev source : FdWrapper
source = record { fd = 3; eof = false; closed = false; read_count = 0; write_count = 0 }

abbrev reader : Rule FdWrapper
reader = record {
  fd = λ s. s;
  direction = direction_in;
  callback = λ s. some (register_read s);
  interest = λ s. true;
  cancel = λ s. some s;
}

abbrev spinner : Rule FdWrapper
spinner = record reader { callback = λ s. some s }

abbrev input_there : List Revents
input_there =
    record { readable = true; writable = false; err = false; nval = false; hup = false } ∷ []

served :
    wait_next_event (reader ∷ []) (reported input_there) source
    ≡ some (success, record source { read_count = 1 }, reader ∷ [])
unfolding wait_next_event register_read set_up defunct something_to_poll asked pollfd_of polled
    serve turn first_report ready call rules_of
served = refl

-- A callback that reads nothing and stays interested is an exception.
busy : wait_next_event (spinner ∷ []) (reported input_there) source ≡ none
unfolding wait_next_event set_up defunct something_to_poll asked pollfd_of polled serve turn
    first_report ready call rules_of
busy = refl

at_end :
    wait_next_event (reader ∷ []) (reported input_there) (record source { eof = true })
    ≡ some (exit, record source { eof = true }, [])
unfolding wait_next_event set_up defunct something_to_poll asked pollfd_of polled serve turn
    first_report ready call rules_of
at_end = refl

live : defunct reader source ≡ false
unfolding defunct
live = refl

poll_failed_ignored_example :
    wait_next_event (reader ∷ []) (poll_failed 12) source ≡ some (success, source, reader ∷ [])
poll_failed_ignored_example = poll_failed_ignored (reader ∷ []) 12 source (live, tt) refl
