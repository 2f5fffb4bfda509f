-- ===== src/Probed/Tstamp.antt =====
-- SLANG-probed/tstamp.c: the fallback of the timestamping modes, and the timestamp in the control
-- messages of a packet. A control message holds what its type says: the three times of
-- `scm_timestamping_alt`, one time, or the origin of an error.
use baseliner_docker.Base.{
  ◌⊎◌, List, [], ◌∷◌, Bool, true, false, not, ◌&&◌, ◌||◌, ℤ, pos, negsuc, ◌≡◌, refl, if◌then◌else◌,
  if_rule, Bool-cases, inl, inr,
}
use baseliner_docker.Clock.{Timespec}

-- `enum tsmode`
pub data TsMode : Type 0 where
  hardware kernel userland : TsMode

-- The flags given to SO_TIMESTAMPING, and SO_TIMESTAMPNS.
pub data SocketOption : Type 0 where
  timestamping_hardware timestamping_software timestampns : SocketOption

-- Whether the calls succeed: `ioctl` on the interface, and `setsockopt` by option.
pub record System : Type 0 where
  pub ioctl_ok : Bool
  pub accepts : SocketOption → Bool

-- `cfg.ts`, and the options that the socket has.
pub record Stamping : Type 0 where
  pub mode : TsMode
  pub set : List SocketOption

abbrev pub setsockopt : System → SocketOption → Stamping → Stamping
setsockopt y o s = if y.accepts o then record s { set = o ∷ s.set } else s

-- `tstamp_mode_userland`
unfoldable pub tstamp_mode_userland : System → Stamping → Stamping
tstamp_mode_userland y s = record (setsockopt y timestampns s) { mode = userland }

-- `tstamp_mode_kernel`
unfoldable pub tstamp_mode_kernel : System → Stamping → Stamping
tstamp_mode_kernel y s =
    if y.accepts timestamping_software
    then (record (setsockopt y timestamping_software s) { mode = kernel })
    else tstamp_mode_userland y s

-- `tstamp_mode_hardware`
unfoldable pub tstamp_mode_hardware : System → Stamping → Stamping
tstamp_mode_hardware y s =
    if not y.ioctl_ok
    then tstamp_mode_kernel y s
    else if not (y.accepts timestamping_hardware)
    then tstamp_mode_userland y s
    else (record (setsockopt y timestamping_hardware s) { mode = hardware })

-- The option that a mode needs.
abbrev pub option_of : TsMode → SocketOption
option_of hardware = timestamping_hardware
option_of kernel = timestamping_software
option_of userland = timestampns

-- The mode has its option on the socket, if the system accepts it.
abbrev pub IsServed : System → Stamping → Type 0
IsServed y s =
    (s.mode ≡ userland) × (y.accepts timestampns ≡ false)
    ⊎ ((rest : List SocketOption) × (s.set ≡ option_of s.mode ∷ rest))

userland-IsServed : (y : System) (s : Stamping) → IsServed y (tstamp_mode_userland y s)
unfolding tstamp_mode_userland
userland-IsServed y s = elim (Bool-cases (y.accepts timestampns)) [
  | inl e ↦ rw e (inr (s.set, refl))
  | inr e ↦ inl (refl, e)
]

kernel-IsServed : (y : System) (s : Stamping) → IsServed y (tstamp_mode_kernel y s)
unfolding tstamp_mode_kernel
kernel-IsServed y s = elim (Bool-cases (y.accepts timestamping_software)) [
  | inl e ↦ rw e (inr (s.set, refl))
  | inr e ↦ rw e (userland-IsServed y s)
]

-- Whatever the system refuses, each of the three modes ends with a mode whose option has been set on
-- the socket, but for userland times where the system refuses that option too.
modes-IsServed :
    (y : System) (s : Stamping)
    → IsServed y (tstamp_mode_hardware y s)
      × IsServed y (tstamp_mode_kernel y s)
      × IsServed y (tstamp_mode_userland y s)
unfolding tstamp_mode_hardware
modes-IsServed y s = (
  if_rule (IsServed y) (not y.ioctl_ok) (kernel-IsServed y s)
      (elim (Bool-cases (y.accepts timestamping_hardware)) [
        | inl e ↦ rw e (inr (s.set, refl))
        | inr e ↦ rw e (userland-IsServed y s)
      ]),
  kernel-IsServed y s,
  userland-IsServed y s,
)

-- A control message, by level and type.
pub data Control : Type 0 where
  -- SOL_SOCKET, SO_TIMESTAMPING: systime, hwtimesys, hwtimeraw
  scm_timestamping : Timespec → Timespec → Timespec → Control
  -- SOL_SOCKET, SO_TIMESTAMPNS
  scm_timestampns : Timespec → Control
  -- IPPROTO_IPV6, IPV6_RECVERR: whether `ee_origin` is SO_EE_ORIGIN_TIMESTAMPING
  ipv6_recverr : Bool → Control
  other_control : Control

-- The loop of `tstamp_extract`: `ts`, and the bits 1 and 2 of `ok`.
pub record Extract : Type 0 where
  pub ts : Timespec
  pub stamped : Bool
  pub origin : Bool

abbrev pub pick : TsMode → Timespec → Timespec → Timespec → Timespec
pick hardware sys raw ts = raw
pick kernel sys raw ts = sys
pick userland sys raw ts = ts

abbrev pub is_userland : TsMode → Bool
is_userland hardware = false
is_userland kernel = false
is_userland userland = true

unfoldable pub extract : TsMode → Bool → List Control → Extract → ℤ × Timespec
extract mode tx [] x = (negsuc 0, x.ts)
extract mode tx (scm_timestamping sys hw raw ∷ cs) x =
    let rest = extract mode tx cs x in
    let x' = record x { ts = pick mode sys raw x.ts; stamped = true } in
    let more = extract mode tx cs x' in
    if is_userland mode then rest else if not tx || x.origin then (pos 0, x'.ts) else more
extract mode tx (scm_timestampns t ∷ cs) x =
    let rest = extract mode tx cs x in if is_userland mode then (pos 0, t) else rest
extract mode tx (ipv6_recverr stamping ∷ cs) x =
    let rest = extract mode tx cs x in
    let more = extract mode tx cs (record x { origin = true }) in
    if tx && stamping then (if x.stamped then (pos 0, x.ts) else more) else rest
extract mode tx (other_control ∷ cs) x = extract mode tx cs x

abbrev pub first_extract : Extract
first_extract = record {
  ts = record { sec = pos 0; nsec = pos 0 };
  stamped = false;
  origin = false;
}

-- `tstamp_extract`: the value returned, and `*ts`.
unfoldable pub tstamp_extract : TsMode → Bool → List Control → ℤ × Timespec
tstamp_extract mode tx cs = extract mode tx cs first_extract
