-- ===== src/Channel.antt =====
-- include/Channel.h and src/Channel.cc: a file descriptor with the events that it listens to. The
-- bit masks of the source are records with a truth value for each bit that it uses. The owning
-- loop is not a field, see `Poller`; whether the tied object still lives is an argument.
pub mod Dispatch
mod Examples
use echo_server.Prelude.{ℕ, Bool, true, false, not, ◌&&◌, ◌||◌, List, [], ◌∷◌, ◌++◌, if◌then◌else◌}

-- EPOLLIN, EPOLLPRI, EPOLLOUT, EPOLLERR and EPOLLHUP.
pub record Events : Type 0 where
  pub input : Bool
  pub priority : Bool
  pub output : Bool
  pub error : Bool
  pub hangup : Bool

abbrev pub none_event : Events
none_event = record {
  input = false;
  priority = false;
  output = false;
  error = false;
  hangup = false;
}

abbrev pub read_event : Events
read_event = record none_event { input = true; priority = true }

abbrev pub write_event : Events
write_event = record none_event { output = true }

-- `a | b`, `a & ~b`, and `a & b` read as a truth value.
abbrev pub union : Events → Events → Events
union a b = record {
  input = a.input || b.input;
  priority = a.priority || b.priority;
  output = a.output || b.output;
  error = a.error || b.error;
  hangup = a.hangup || b.hangup;
}

abbrev pub without : Events → Events → Events
without a b = record {
  input = a.input && not b.input;
  priority = a.priority && not b.priority;
  output = a.output && not b.output;
  error = a.error && not b.error;
  hangup = a.hangup && not b.hangup;
}

abbrev pub meets : Events → Events → Bool
meets a b =
    (a.input && b.input)
    || (a.priority && b.priority)
    || (a.output && b.output)
    || (a.error && b.error)
    || (a.hangup && b.hangup)

abbrev pub is_none : Events → Bool
is_none e = not (e.input || e.priority || e.output || e.error || e.hangup)

-- Where the channel stands in its poller: -1, 1 and 2 in the source.
pub data Index : Type 0 where
  new added deleted : Index

-- The four callbacks; a channel records which of them are set.
pub data Callback : Type 0 where
  on_close on_error on_read on_write : Callback

pub record Channel : Type 0 where
  pub fd : ℕ
  pub events : Events
  pub revents : Events
  pub index : Index
  pub tied : Bool
  pub has_read : Bool
  pub has_write : Bool
  pub has_close : Bool
  pub has_error : Bool

-- The constructor.
unfoldable pub init : ℕ → Channel
init fd = record {
  fd = fd;
  events = none_event;
  revents = none_event;
  index = new;
  tied = false;
  has_read = false;
  has_write = false;
  has_close = false;
  has_error = false;
}

unfoldable pub set_callback : Callback → Channel → Channel
set_callback on_close c = record c { has_close = true }
set_callback on_error c = record c { has_error = true }
set_callback on_read c = record c { has_read = true }
set_callback on_write c = record c { has_write = true }

-- What `enableReading` and its four relatives do to `events_` before they call `update`.
pub data Change : Type 0 where
  enable_reading enable_writing disable_reading disable_writing disable_all : Change

unfoldable pub change : Change → Events → Events
change enable_reading e = union e read_event
change enable_writing e = union e write_event
change disable_reading e = without e read_event
change disable_writing e = without e write_event
change disable_all e = none_event

abbrev pub is_none_event : Channel → Bool
is_none_event c = is_none c.events

abbrev pub is_writing : Channel → Bool
is_writing c = meets c.events write_event

abbrev pub is_reading : Channel → Bool
is_reading c = meets c.events read_event

unfoldable pub tie : Channel → Channel
tie c = record c { tied = true }

unfoldable pub save_revents : Events → Channel → Channel
save_revents e c = record c { revents = e }

abbrev when : Bool → Callback → List Callback
when b c = if b then c ∷ [] else []

-- The callbacks that are made, in order.
unfoldable pub handle_event_with_guard : Channel → List Callback
handle_event_with_guard c =
    when (c.revents.hangup && not (meets c.revents read_event) && c.has_close) on_close
    ++ (when (c.revents.error && c.has_error) on_error
        ++ (when (meets c.revents read_event && c.has_read) on_read
            ++ when (c.revents.output && c.has_write) on_write))

-- `alive` says whether `tie_.lock()` gives an object.
unfoldable pub handle_event : Channel → Bool → List Callback
unfolding handle_event_with_guard
handle_event c alive =
    if c.tied then (if alive then handle_event_with_guard c else []) else handle_event_with_guard c
