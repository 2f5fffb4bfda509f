-- ===== src/Probed/Tests.antt =====
-- Times of probed at concrete inputs.
use baseliner_docker.Base.{
  ℕ, ◌+◌, ◌≡◌, refl, arith, pos, negsuc, true, false, ◌-ℤ◌, ◌+ℤ◌, Bool, List, [], ◌∷◌, none, some,
  ◌==◌, if◌then◌else◌,
}
use baseliner_docker.Clock.{Timespec, IsNormal, nanos}
use baseliner_docker.Probed.Util.{diff_ts}
use baseliner_docker.Probed.Fifo.{
  success, Report, Fifo, client_write_fifo, total, IsCounted, client_write_fifo-total,
}
use baseliner_docker.Probed.Client.{
  client, Res, Kind, pong_type, time_type, other_type, Data, no_times, World, Env,
}
use baseliner_docker.Probed.Results.{verdict, rtt_of}
use baseliner_docker.Probed.Counted.{Accounts}
use baseliner_docker.Probed.Accounting.{
  Call, insert, update, clear_timeouts, calls, all_new, calls-Accounts,
}
use baseliner_docker.Probed.Tstamp.{
  kernel, userland, System, SocketOption, timestampns, timestamping_software, timestamping_hardware,
  Stamping, Control, scm_timestamping, ipv6_recverr, tstamp_extract,
}
use baseliner_docker.Probed.Stamps.{result, is_enough, tstamp_extract-is_enough}
use baseliner_docker.Probed.Tstamp.{extract}
use baseliner_docker.Probed.Sending.{
  Round, recv_w_ts, fetch, tstamp_fetch_tx, sent_at, unstamped, send_w_ts, is_sent, is_waiting,
  send_w_ts-in_time,
}
use baseliner_docker.Probed.TripTime.{IsTimed, nanos-rtt_of}

abbrev early : Timespec
early = record { sec = pos 1; nsec = pos 900_000_000 }

abbrev late : Timespec
late = record { sec = pos 3; nsec = pos 100_000_000 }

early-IsNormal : IsNormal early
early-IsNormal = record { low = omega arith; high = omega arith }

late-IsNormal : IsNormal late
late-IsNormal = record { low = omega arith; high = omega arith }

backwards : diff_ts early late ≡ (record { sec = pos 1; nsec = pos 200_000_000 }, true)
unfolding diff_ts ◌-ℤ◌ ◌+ℤ◌
backwards = refl

abbrev reply_lost : ℕ → Bool
reply_lost k = k == 1

abbrev record_of : ℕ → Report
record_of n = record {
  id = 1;
  seq = n;
  code = success;
  created_sec = 0;
  created_nsec = 0;
  rtt_sec = 0;
  rtt_nsec = 0;
}

abbrev one_queued : Fifo
one_queued = record { queue = record_of 7 ∷ []; count = 1; count_max = 1; written = []; calls = 0 }

one_queued-IsCounted : IsCounted one_queued
one_queued-IsCounted = refl

abbrev odd_seq : Report → Bool
odd_seq r = r.seq == 7

-- The queued record is written, the new one is not.
client_write_fifo_example :
    (total odd_seq (client_write_fifo reply_lost true (record_of 8) one_queued)
      ≡ total odd_seq one_queued + (if odd_seq (record_of 8) then 1 else 0))
    × IsCounted (client_write_fifo reply_lost true (record_of 8) one_queued)
client_write_fifo_example =
    client_write_fifo-total reply_lost odd_seq (record_of 8) one_queued one_queued-IsCounted

abbrev world : World
world = record {
  sessions =
      record {
        id = 1;
        results = [];
        dst = 16;
        got_hello = true;
        dscp = 0;
        child_pid = 0;
        last_seq = 5;
      }
      ∷ [];
  tally = record {
    fifo = one_queued;
    done = 0;
    ok = 0;
    timeouts = 0;
    pongloss = 0;
    tserror = 0;
    dserror = 0;
    dups = 0;
    thold = negsuc 0;
    n_thold = 0;
    rtt = no_times;
    total = no_times;
    kernel_overhead = no_times;
  };
  interrupted = false;
}

abbrev env : Env
env = record { mode = client; accepts = reply_lost; memory = true }

abbrev data_of : Kind → Data
data_of k = record { kind = k; seq = 5; id = 1; t2 = early; t3 = early }

-- A probe, its answer, the server's times, and the answer once more.
abbrev session : List Call
session =
    insert 16 (data_of other_type) early early
    ∷ update 16 (data_of pong_type) (some late) 0 (pos 9) (pos 0) late
    ∷ update 16 (data_of time_type) none 0 (pos 9) (pos 0) late
    ∷ update 16 (data_of pong_type) (some late) 0 (pos 9) (pos 0) late
    ∷ clear_timeouts late
    ∷ []

calls_example : Accounts (all_new env session world) world (calls env session world)
calls_example = calls-Accounts env session world refl

abbrev answered : Res
answered = record {
  created = early;
  pong = true;
  time = true;
  dscp = false;
  addr = 16;
  id = 1;
  seq = 5;
  t1 = early;
  t2 = early;
  t3 = early;
  t4 = late;
}

answered-IsTimed : IsTimed answered
answered-IsTimed = record {
  first = early-IsNormal;
  second = early-IsNormal;
  third = early-IsNormal;
  fourth = late-IsNormal;
}

answered_ok : verdict answered ≡ success
unfolding verdict diff_ts ◌-ℤ◌ ◌+ℤ◌
answered_ok = refl

rtt_example :
    nanos (rtt_of answered).0 ≡ (nanos late -ℤ nanos early) -ℤ (nanos early -ℤ nanos early)
rtt_example = nanos-rtt_of answered answered-IsTimed answered_ok

-- The interface has no hardware times.
abbrev software_only : SocketOption → Bool
software_only timestamping_hardware = false
software_only timestamping_software = true
software_only timestampns = true

abbrev system : System
system = record { ioctl_ok = true; accepts = software_only }

abbrev unset : Stamping
unset = record { mode = userland; set = [] }

abbrev messages : List Control
messages = ipv6_recverr true ∷ scm_timestamping late early early ∷ []

extract_example : (tstamp_extract kernel true messages).0 ≡ result (is_enough kernel true messages)
extract_example = tstamp_extract-is_enough kernel true messages

-- The error queue is empty at first; the second packet has its time.
abbrev rounds : List Round
rounds =
    record { ready = false; whole = false; controls = []; now = pos 4000 }
    ∷ record { ready = true; whole = true; controls = messages; now = pos 6000 }
    ∷ []

send_example :
    (is_sent (send_w_ts kernel early true (pos 0) (pos 1) rounds) ≡ true)
    × (is_waiting (send_w_ts kernel early true (pos 0) (pos 1) rounds) ≡ false)
unfolding ◌-ℤ◌
send_example = send_w_ts-in_time kernel early true (pos 0) (pos 1) rounds

sent_early : send_w_ts kernel early true (pos 0) (pos 1) rounds ≡ sent_at late
unfolding send_w_ts tstamp_fetch_tx fetch recv_w_ts tstamp_extract extract ◌-ℤ◌
sent_early = refl

-- Ten milliseconds have passed before the packet comes.
sent_late : send_w_ts kernel early true (pos 0) (pos 10000) rounds ≡ unstamped
unfolding send_w_ts tstamp_fetch_tx fetch recv_w_ts tstamp_extract extract ◌-ℤ◌
sent_late = refl
