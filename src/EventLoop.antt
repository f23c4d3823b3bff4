-- ===== src/EventLoop.antt =====
-- libsponge/util/eventloop.hh and eventloop.cc: rules that are served when their descriptors are ready. What
-- the callbacks share by reference is a state that they map, and in which each rule finds its descriptor;
-- a callback adds no rules. What `poll` reports is an argument. `none` is an exception.
pub mod Laws
mod Tests
use com_net_sponge.Prelude.{
  ℕ, Bool, true, false, not, ◌&&◌, ◌||◌, ◌==◌, if◌then◌else◌, List, [], ◌∷◌, ◌++◌, map, Option,
  none, some,
}
use com_net_sponge.FileDescriptor.{FdWrapper}

pub data Direction : Type 0 where
  direction_in direction_out : Direction

pub record Rule (S : Type 0) : Type 0 where
  pub fd : S → FdWrapper
  pub direction : Direction
  pub callback : S → Option S
  pub interest : S → Bool
  pub cancel : S → Option S

-- `pollfd`, less what it reports; its events are one direction or none.
pub record Pollfd : Type 0 where
  pub fd_num : ℕ
  pub events : Option Direction

-- What is reported: POLLIN, POLLOUT, POLLERR, POLLNVAL and POLLHUP.
pub record Revents : Type 0 where
  pub readable : Bool
  pub writable : Bool
  pub err : Bool
  pub nval : Bool
  pub hup : Bool

abbrev pub nothing_reported : Revents
nothing_reported = record {
  readable = false;
  writable = false;
  err = false;
  nval = false;
  hup = false;
}

-- How `poll` ends: by its timeout, by EINTR, by another error, or with reports in the order of the rules.
pub data PollAnswer : Type 0 where
  timed_out interrupted : PollAnswer
  poll_failed : ℕ → PollAnswer
  reported : List Revents → PollAnswer

pub data Result : Type 0 where
  success timeout exit : Result

unfoldable pub is_exit : Result → Bool
is_exit success = false
is_exit timeout = false
is_exit exit = true

-- `service_count` of a rule.
unfoldable pub count_of : Direction → FdWrapper → ℕ
count_of direction_in f = f.read_count
count_of direction_out f = f.write_count

-- No more is to be read.
unfoldable pub at_eof : Direction → FdWrapper → Bool
at_eof direction_in f = f.eof
at_eof direction_out f = false

unfoldable pub asked : Option Direction → Bool
asked none = false
asked (some d) = true

-- `revents & events`.
unfoldable pub ready : Option Direction → Revents → Bool
ready none now = false
ready (some direction_in) now = now.readable
ready (some direction_out) now = now.writable

-- The report for the first of the rules that are left; `revents` is 0 where `poll` has not written it.
unfoldable pub first_report : List Revents → Revents
first_report [] = nothing_reported
first_report (now ∷ reports) = now

unfoldable pub later_reports : List Revents → List Revents
later_reports [] = []
later_reports (now ∷ reports) = reports

module _ {S : Type 0} where
  unfoldable pub add_rule : List (Rule S) → Rule S → List (Rule S)
  add_rule rules r = rules ++ (r ∷ [])

  unfoldable pub service_count : Rule S → S → ℕ
  unfolding count_of
  service_count r s = count_of r.direction (r.fd s)

  -- The rule is cancelled before the poll.
  unfoldable pub defunct : Rule S → S → Bool
  unfolding at_eof
  defunct r s = at_eof r.direction (r.fd s) || (r.fd s).closed

  unfoldable pub pollfd_of : Rule S → S → Pollfd
  pollfd_of r s = record {
    fd_num = (r.fd s).fd;
    events = (if r.interest s then some r.direction else none);
  }

  -- The loop that sets up the poll: the rules that stay, each with its `pollfd`.
  unfoldable pub set_up : List (Rule S) → S → Option (S × List (Rule S × Pollfd))
  set_up [] s = some (s, [])
  set_up (r ∷ rules) s = elim (defunct r s) [
    | true ↦ elim (r.cancel s) [ none ↦ none | some s' ↦ set_up rules s' ]
    | false ↦ elim (set_up rules s) [
      | none ↦ none
      | some (s', kept) ↦ some (s', (r, pollfd_of r s) ∷ kept)
    ]
  ]

  unfoldable pub something_to_poll : List (Rule S × Pollfd) → Bool
  something_to_poll [] = false
  something_to_poll ((r, p) ∷ kept) = asked p.events || something_to_poll kept

  unfoldable pub rules_of : List (Rule S × Pollfd) → List (Rule S)
  rules_of [] = []
  rules_of ((r, p) ∷ kept) = r ∷ rules_of kept

  -- A callback, which must have used the descriptor or be no longer interested.
  unfoldable pub call : Rule S → S → Option S
  unfolding service_count
  call r s = elim (r.callback s) [
    | none ↦ none
    | some s' ↦
        (if (service_count r s == service_count r s') && r.interest s' then none else some s')
  ]

  -- What becomes of one rule: the state, and whether it stays.
  unfoldable pub turn : Rule S → Pollfd → Revents → S → Option (S × Bool)
  turn r p now s =
      if now.err || now.nval
      then none
      else if now.hup && asked p.events && not (ready p.events now)
      then elim (r.cancel s) [ none ↦ none | some s' ↦ some (s', false) ]
      else if ready p.events now
      then elim (call r s) [ none ↦ none | some s' ↦ some (s', true) ]
      else some (s, true)

  -- The loop through the results.
  unfoldable pub serve : List (Rule S × Pollfd) → List Revents → S → Option (S × List (Rule S))
  serve [] reports s = some (s, [])
  serve ((r, p) ∷ kept) reports s = elim (turn r p (first_report reports) s) [
    | none ↦ none
    | some (s', stays) ↦ elim (serve kept (later_reports reports) s') [
      | none ↦ none
      | some (s'', rules) ↦ some (s'', if stays then r ∷ rules else rules)
    ]
  ]

  -- What follows the poll. An error other than EINTR leaves the block that catches it like a success, and
  -- no report was written.
  unfoldable pub polled :
      List (Rule S × Pollfd) → PollAnswer → S → Option (Result × S × List (Rule S))
  polled kept timed_out s = some (timeout, s, rules_of kept)
  polled kept interrupted s = some (exit, s, rules_of kept)
  polled kept (poll_failed errno) s = elim (serve kept [] s) [
    | none ↦ none
    | some (s', rules) ↦ some (success, s', rules)
  ]
  polled kept (reported reports) s = elim (serve kept reports s) [
    | none ↦ none
    | some (s', rules) ↦ some (success, s', rules)
  ]

  unfoldable pub wait_next_event :
      List (Rule S) → PollAnswer → S → Option (Result × S × List (Rule S))
  wait_next_event rules answer s = elim (set_up rules s) [
    | none ↦ none
    | some (s', kept) ↦
        (if not (something_to_poll kept)
          then some (exit, s', rules_of kept)
          else polled kept answer s')
  ]
