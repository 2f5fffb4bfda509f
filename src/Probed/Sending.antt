-- ===== src/Probed/Sending.antt =====
-- The time of a packet sent: SLANG-probed/tstamp.c (`tstamp_fetch_tx`) and net.c (`send_w_ts`, and
-- `recv_w_ts` for the error queue). A time of gettimeofday is a number of microseconds, which is what
-- timersub and timercmp go by; the rounds of the loop are a list, with what select, recvmsg and the
-- clock give in each.
use baseliner_docker.Base.{
  ℕ, List, [], ◌∷◌, Bool, true, false, not, ◌&&◌, ◌||◌, ℤ, pos, negsuc, ◌-ℤ◌, ltb_ℤ, eqb_ℤ, ◌≡◌,
  refl, ap, ◌∙◌, if◌then◌else◌, Bool-cases, inl, inr, if_rule,
}
use baseliner_docker.Clock.{Timespec}
use baseliner_docker.Probed.Tstamp.{
  TsMode, hardware, kernel, userland, is_userland, Control, tstamp_extract,
}
use baseliner_docker.Probed.Stamps.{is_enough, result, tstamp_extract-is_enough}

-- `whole`: recvmsg returns DATALEN.
pub record Round : Type 0 where
  pub ready : Bool
  pub whole : Bool
  pub controls : List Control
  pub now : ℤ

-- `recv_w_ts` with MSG_ERRQUEUE: the value returned, and `pkt->ts`.
unfoldable pub recv_w_ts : TsMode → Bool → List Control → Timespec → ℤ × Timespec
recv_w_ts mode whole controls ts =
    if not whole then (negsuc 0, ts) else tstamp_extract mode true controls

abbrev pub no_time : Timespec
no_time = record { sec = pos 0; nsec = pos 0 }

-- The rounds may come to an end before the loop does.
pub data Fetched : Type 0 where
  fetched : Timespec → Fetched
  missed pending : Fetched

-- `tv`
abbrev pub tv_usec : ℕ
tv_usec = 10000

-- The loop, at the time `now`; a time is stored where recv_w_ts returns 0.
unfoldable pub fetch : TsMode → ℤ → ℤ → List Round → Fetched
fetch mode last now [] = if ltb_ℤ (now -ℤ last) (pos tv_usec) then pending else missed
fetch mode last now (r ∷ rs) =
    let rest = fetch mode last r.now rs in
    let (n, ts) = recv_w_ts mode r.whole r.controls no_time in
    if not (ltb_ℤ (now -ℤ last) (pos tv_usec))
    then missed
    else if r.ready && eqb_ℤ n (pos 0)
    then fetched ts
    else rest

-- `tstamp_fetch_tx`, which reads the clock twice before the loop.
unfoldable pub tstamp_fetch_tx : TsMode → ℤ → ℤ → List Round → Fetched
tstamp_fetch_tx mode last now rs = fetch mode last now rs

-- What `send_w_ts` comes to: an error, or the time in `ts`.
pub data Sent : Type 0 where
  sent_at : Timespec → Sent
  not_sent unstamped still_waiting : Sent

abbrev pub stamp_of : Fetched → Sent
stamp_of (fetched ts) = sent_at ts
stamp_of missed = unstamped
stamp_of pending = still_waiting

-- `send_w_ts`: `before` is what clock_gettime gives, and `ok` whether sendto succeeds.
unfoldable pub send_w_ts : TsMode → Timespec → Bool → ℤ → ℤ → List Round → Sent
send_w_ts mode before ok last now rs =
    if not ok
    then not_sent
    else if is_userland mode
    then sent_at before
    else stamp_of (tstamp_fetch_tx mode last now rs)

-- The rounds that start within `tv` of the first reading of the clock.
abbrev pub in_time : ℤ → ℤ → List Round → List Round
in_time last now [] = []
in_time last now (r ∷ rs) =
    let rest = in_time last r.now rs in if ltb_ℤ (now -ℤ last) (pos tv_usec) then r ∷ rest else []

-- A round that finds a whole packet on the error queue with what tstamp_extract needs.
abbrev pub gives_time : TsMode → Round → Bool
gives_time mode r = r.ready && (r.whole && is_enough mode true r.controls)

abbrev pub some_time : TsMode → List Round → Bool
some_time mode [] = false
some_time mode (r ∷ rs) = gives_time mode r || some_time mode rs

abbrev pub is_fetched : Fetched → Bool
is_fetched (fetched ts) = true
is_fetched missed = false
is_fetched pending = false

abbrev pub is_pending : Fetched → Bool
is_pending (fetched ts) = false
is_pending missed = false
is_pending pending = true

-- No reading of the clock is `tv` or more behind the first one.
abbrev pub all_early : ℤ → ℤ → List Round → Bool
all_early last now [] = ltb_ℤ (now -ℤ last) (pos tv_usec)
all_early last now (r ∷ rs) = ltb_ℤ (now -ℤ last) (pos tv_usec) && all_early last r.now rs

abbrev pub is_sent : Sent → Bool
is_sent (sent_at ts) = true
is_sent not_sent = false
is_sent unstamped = false
is_sent still_waiting = false

abbrev pub is_waiting : Sent → Bool
is_waiting (sent_at ts) = false
is_waiting not_sent = false
is_waiting unstamped = false
is_waiting still_waiting = true

stamp_of-is_sent : (f : Fetched) → is_sent (stamp_of f) ≡ is_fetched f
stamp_of-is_sent (fetched ts) = refl
stamp_of-is_sent missed = refl
stamp_of-is_sent pending = refl

stamp_of-is_waiting : (f : Fetched) → is_waiting (stamp_of f) ≡ is_pending f
stamp_of-is_waiting (fetched ts) = refl
stamp_of-is_waiting missed = refl
stamp_of-is_waiting pending = refl

result-eqb : (b : Bool) → eqb_ℤ (result b) (pos 0) ≡ b
result-eqb true = refl
result-eqb false = refl

recv_w_ts-is_enough :
    (mode : TsMode) (whole : Bool) (cs : List Control)
    → eqb_ℤ (recv_w_ts mode whole cs no_time).0 (pos 0) ≡ (whole && is_enough mode true cs)
unfolding recv_w_ts
recv_w_ts-is_enough mode true cs =
    ap (λ n. eqb_ℤ n (pos 0)) (tstamp_extract-is_enough mode true cs)
    ∙ result-eqb (is_enough mode true cs)
recv_w_ts-is_enough mode false cs = refl

found_or :
    (b : Bool) (ts : Timespec) (rest : Fetched) (z : Bool)
    → is_fetched rest ≡ z
    → is_fetched (if b then fetched ts else rest) ≡ (b || z)
found_or true ts rest z e = refl
found_or false ts rest z e = e

waits_or :
    (b : Bool) (ts : Timespec) (rest : Fetched) (z e : Bool)
    → is_pending rest ≡ (not z && e)
    → is_pending (if b then fetched ts else rest) ≡ (not (b || z) && e)
waits_or true ts rest z e h = refl
waits_or false ts rest z e h = h

fetch-is_fetched :
    (mode : TsMode) (last now : ℤ) (rs : List Round)
    → is_fetched (fetch mode last now rs) ≡ some_time mode (in_time last now rs)
unfolding fetch
fetch-is_fetched mode last now [] =
    if_rule (λ f. is_fetched f ≡ false) (ltb_ℤ (now -ℤ last) (pos tv_usec)) refl refl
fetch-is_fetched mode last now (r ∷ rs) = elim (Bool-cases (ltb_ℤ (now -ℤ last) (pos tv_usec))) [
  | inl c ↦
      rw (c, recv_w_ts-is_enough mode r.whole r.controls)
        (found_or (gives_time mode r) _ _ _ (fetch-is_fetched mode last r.now rs))
  | inr c ↦ rw c refl
]

waits_by : (b : Bool) → is_pending (if b then pending else missed) ≡ b
waits_by true = refl
waits_by false = refl

fetch-is_pending :
    (mode : TsMode) (last now : ℤ) (rs : List Round)
    → is_pending (fetch mode last now rs)
      ≡ (not (some_time mode (in_time last now rs)) && all_early last now rs)
unfolding fetch
fetch-is_pending mode last now [] = waits_by (ltb_ℤ (now -ℤ last) (pos tv_usec))
fetch-is_pending mode last now (r ∷ rs) = elim (Bool-cases (ltb_ℤ (now -ℤ last) (pos tv_usec))) [
  | inl c ↦
      rw (c, recv_w_ts-is_enough mode r.whole r.controls)
        (waits_or (gives_time mode r) _ _ _ _ (fetch-is_pending mode last r.now rs))
  | inr c ↦ rw c refl
]

-- With sendto refused there is no time, and with userland times it is the one taken before. Otherwise
-- send_w_ts returns a time exactly if a round that starts less than 10 ms after the first reading of the
-- clock finds a whole packet with a time of the mode and its origin on the error queue, and it goes on
-- exactly as long as there was no such round and no reading of the clock was later than that.
pub send_w_ts-in_time :
    (mode : TsMode) (before : Timespec) (ok : Bool) (last now : ℤ) (rs : List Round)
    → let s = send_w_ts mode before ok last now rs in
      let found = some_time mode (in_time last now rs) in
      (is_sent s ≡ (ok && (is_userland mode || found)))
      × (is_waiting s ≡ (ok && (not (is_userland mode) && (not found && all_early last now rs))))
unfolding send_w_ts tstamp_fetch_tx
send_w_ts-in_time mode before false last now rs = (refl, refl)
send_w_ts-in_time userland before true last now rs = (refl, refl)
send_w_ts-in_time kernel before true last now rs = (
  stamp_of-is_sent _ ∙ fetch-is_fetched kernel last now rs,
  stamp_of-is_waiting _ ∙ fetch-is_pending kernel last now rs,
)
send_w_ts-in_time hardware before true last now rs = (
  stamp_of-is_sent _ ∙ fetch-is_fetched hardware last now rs,
  stamp_of-is_waiting _ ∙ fetch-is_pending hardware last now rs,
)
