-- ===== src/Probed/Client.antt =====
-- SLANG-probed/client.c: the probes that wait for their answers. A session (`struct msess`) has a list
-- of results, the newest first, as TAILQ_INSERT_HEAD leaves it. The means and variances of the trip
-- times are floating-point numbers and left out, like all that is printed. An IPv6 address is a number.
use baseliner_docker.Base.{
  ℕ, ◌-◌, ◌%◌, ◌^◌, List, [], ◌∷◌, Option, none, some, Bool, true, false, not, ◌&&◌, ◌||◌, ℤ, pos,
  negsuc, ◌==◌, if◌then◌else◌,
}
use baseliner_docker.Clock.{Timespec}
use baseliner_docker.Probed.Fifo.{Fifo}

-- `enum opmode`
pub data Mode : Type 0 where
  help server client daemon : Mode

-- `struct res`; MASK_PING is set in each of them, the other bits of `state` are Booleans.
pub record Res : Type 0 where
  pub created : Timespec
  pub pong : Bool
  pub time : Bool
  pub dscp : Bool
  pub addr : ℕ
  pub id : ℕ
  pub seq : ℕ
  pub t1 : Timespec
  pub t2 : Timespec
  pub t3 : Timespec
  pub t4 : Timespec

pub record Msess : Type 0 where
  pub id : ℕ
  pub results : List Res
  pub dst : ℕ
  pub got_hello : Bool
  pub dscp : ℕ
  pub child_pid : ℕ
  pub last_seq : ℕ

-- TYPE_PONG, TYPE_TIME, and all others.
pub data Kind : Type 0 where
  pong_type time_type other_type : Kind

-- `data_t`
pub record Data : Type 0 where
  pub kind : Kind
  pub seq : ℕ
  pub id : ℕ
  pub t2 : Timespec
  pub t3 : Timespec

pub record Extremes : Type 0 where
  pub least : Timespec
  pub most : Timespec

-- The counters of results, and what is reported.
pub record Tally : Type 0 where
  pub fifo : Fifo
  pub done : ℕ
  pub ok : ℕ
  pub timeouts : ℕ
  pub pongloss : ℕ
  pub tserror : ℕ
  pub dserror : ℕ
  pub dups : ℕ
  pub thold : ℤ
  pub n_thold : ℕ
  pub rtt : Extremes
  pub total : Extremes
  pub kernel_overhead : Extremes

pub record World : Type 0 where
  pub sessions : List Msess
  pub tally : Tally
  -- `raise(SIGINT)`
  pub interrupted : Bool

abbrev pub no_times : Extremes
no_times = record {
  least = record { sec = negsuc 0; nsec = pos 0 };
  most = record { sec = pos 0; nsec = pos 0 };
}

-- `client_init`
unfoldable pub client_init : World → World
client_init w = record w {
  sessions = [];
  tally = record w.tally {
    fifo = record w.tally.fifo { queue = [] };
    rtt = no_times;
    total = no_times;
    kernel_overhead = no_times;
  };
}

-- What the system decides: the mode, which calls of `write` succeed, and whether `malloc` does.
pub record Env : Type 0 where
  pub mode : Mode
  pub accepts : ℕ → Bool
  pub memory : Bool

abbrev pub to_u32 : ℤ → ℕ
to_u32 (pos n) = n % 2 ^ 32
to_u32 (negsuc n) = 2 ^ 32 - 1 - n % 2 ^ 32

-- The loop of `client_res_insert`, which leaves the last session with the id.
unfoldable pub insert_last : ℕ → Res → List Msess → Option (List Msess)
insert_last id r [] = none
insert_last id r (s ∷ ss) = elim (insert_last id r ss) [
  | some ss' ↦ some (s ∷ ss')
  | none ↦ if s.id == id then some (record s { results = r ∷ s.results } ∷ ss) else none
]

abbrev zero_time : Timespec
zero_time = record { sec = pos 0; nsec = pos 0 }

abbrev pub new_res : ℕ → Data → Timespec → Timespec → Res
new_res a d ts now = record {
  created = now;
  pong = false;
  time = false;
  dscp = false;
  addr = a;
  id = d.id;
  seq = d.seq;
  t1 = ts;
  t2 = zero_time;
  t3 = zero_time;
  t4 = zero_time;
}

-- `client_res_insert`; `now` is the clock.
unfoldable pub client_res_insert : Env → ℕ → Data → Timespec → Timespec → World → World
client_res_insert env a d ts now w = elim (insert_last d.id (new_res a d ts now) w.sessions) [
  | none ↦ w
  | some ss ↦ if env.memory then record w { sessions = ss } else w
]

abbrev pub matches : ℕ → Data → Res → Bool
matches a d r = r.id == d.id && r.seq == d.seq && r.addr == a

-- The update of the result that matches; `ts` is absent where the pointer is NULL.
abbrev pub touch : Data → Option Timespec → Bool → Res → Res
touch d ts wrong r = elim d.kind [
  | pong_type ↦ record r {
    pong = true;
    t4 = elim ts [ none ↦ r.t4 | some t ↦ t ];
    dscp = wrong || r.dscp;
  }
  | time_type ↦ record r { time = true; t2 = d.t2; t3 = d.t3 }
  | other_type ↦ r
]

-- What the search in a list of results ends with.
pub data Scan : Type 0 where
  absent : Scan
  waits : List Res → Scan
  complete : Res → List Res → Scan

abbrev pub push_res : Res → Scan → Scan
push_res r absent = absent
push_res r (waits rs) = waits (r ∷ rs)
push_res r (complete q rs) = complete q (r ∷ rs)

abbrev pub settle : Res → List Res → Scan
settle r rs = if r.pong && r.time then complete r rs else waits (r ∷ rs)

unfoldable pub scan : ℕ → Data → Option Timespec → Bool → List Res → Scan
scan a d ts wrong [] = absent
scan a d ts wrong (r ∷ rs) =
    let rest = scan a d ts wrong rs in
    if matches a d r then settle (touch d ts wrong r) rs else push_res r rest

-- What the search in the sessions ends with.
pub data Look : Type 0 where
  no_session : Look
  missing : Look
  updated : List Msess → Look
  finished : Res → List Msess → Look

abbrev pub push_session : Msess → Look → Look
push_session s no_session = no_session
push_session s missing = missing
push_session s (updated ss) = updated (s ∷ ss)
push_session s (finished r ss) = finished r (s ∷ ss)

abbrev pub in_session : Msess → List Msess → Scan → Look
in_session s ss absent = missing
in_session s ss (waits rs) = updated (record s { results = rs } ∷ ss)
in_session s ss (complete r rs) = finished r (record s { results = rs } ∷ ss)

-- The first session with the id, and in it the first result that matches.
unfoldable pub look : ℕ → Data → Option Timespec → ℕ → List Msess → Look
look a d ts dscp [] = no_session
look a d ts dscp (s ∷ ss) =
    let rest = look a d ts dscp ss in
    if s.id == d.id
    then in_session s ss (scan a d ts (not (s.dscp == dscp % 2 ^ 8)) s.results)
    else push_session s rest

-- `client_msess_gothello`: the sessions, and 0 or -1.
unfoldable pub say_hello : ℕ → List Msess → List Msess
say_hello a [] = []
say_hello a (s ∷ ss) = (if a == s.dst then record s { got_hello = true } else s) ∷ say_hello a ss

unfoldable pub has_address : ℕ → List Msess → Bool
has_address a [] = false
has_address a (s ∷ ss) = a == s.dst || has_address a ss

unfoldable pub client_msess_gothello : ℕ → World → World × ℤ
client_msess_gothello a w = (
  record w { sessions = say_hello a w.sessions },
  if has_address a w.sessions then pos 0 else negsuc 0,
)

-- `client_msess_isaddrtaken`
unfoldable pub client_msess_isaddrtaken : ℕ → ℕ → List Msess → Bool
client_msess_isaddrtaken a id [] = false
client_msess_isaddrtaken a id (s ∷ ss) =
    let rest = client_msess_isaddrtaken a id ss in
    if s.id == id
    then rest
    else if s.child_pid == 0
    then rest
    else if a == s.dst
    then true
    else rest
