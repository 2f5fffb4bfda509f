-- ===== src/Probed/Stamps.antt =====
-- Which control messages `tstamp_extract` (SLANG-probed/tstamp.c) is content with.
use baseliner_docker.Base.{
  List, [], ◌∷◌, Bool, true, false, not, ◌&&◌, ◌||◌, ℤ, pos, negsuc, ◌≡◌, refl, sym, ap, ◌∙◌,
  if◌then◌else◌, arith, if_rule,
}
use baseliner_docker.Clock.{Timespec}
use baseliner_docker.Probed.Tstamp.{
  TsMode, hardware, kernel, userland, Control, scm_timestamping, scm_timestampns, ipv6_recverr,
  other_control, Extract, pick, is_userland, extract, first_extract, tstamp_extract,
}

-- Some message holds a time of the mode.
abbrev pub has_time : TsMode → List Control → Bool
has_time mode [] = false
has_time mode (scm_timestamping sys hw raw ∷ cs) = not (is_userland mode) || has_time mode cs
has_time mode (scm_timestampns t ∷ cs) = is_userland mode || has_time mode cs
has_time mode (ipv6_recverr stamping ∷ cs) = has_time mode cs
has_time mode (other_control ∷ cs) = has_time mode cs

-- Some message says that the packet is here for its time.
abbrev pub has_origin : List Control → Bool
has_origin [] = false
has_origin (scm_timestamping sys hw raw ∷ cs) = has_origin cs
has_origin (scm_timestampns t ∷ cs) = has_origin cs
has_origin (ipv6_recverr stamping ∷ cs) = stamping || has_origin cs
has_origin (other_control ∷ cs) = has_origin cs

abbrev pub result : Bool → ℤ
result found = if found then pos 0 else negsuc 0

abbrev bits : Timespec → Bool → Bool → Extract
bits t stamped origin = record { ts = t; stamped = stamped; origin = origin }

extract-userland :
    (tx : Bool) (cs : List Control) (t : Timespec) (origin : Bool)
    → (extract userland tx cs (bits t false origin)).0 ≡ result (has_time userland cs)
unfolding extract
extract-userland tx [] t o = refl
extract-userland tx (scm_timestamping sys hw raw ∷ cs) t o = extract-userland tx cs t o
extract-userland tx (scm_timestampns u ∷ cs) t o = refl
extract-userland tx (ipv6_recverr b ∷ cs) t o =
    if_rule (λ (p : ℤ × Timespec). p.0 ≡ result (has_time userland cs)) (tx && b)
      (extract-userland tx cs t true) (extract-userland tx cs t o)
extract-userland tx (other_control ∷ cs) t o = extract-userland tx cs t o

extract-received :
    (mode : TsMode) (cs : List Control) (x : Extract)
    → is_userland mode ≡ false
    → (extract mode false cs x).0 ≡ result (has_time mode cs)
unfolding extract
extract-received mode [] x e = refl
extract-received mode (scm_timestamping sys hw raw ∷ cs) x e = rw e
extract-received mode (scm_timestampns t ∷ cs) x e = rw e (extract-received mode cs x e)
extract-received mode (ipv6_recverr b ∷ cs) x e = extract-received mode cs x e
extract-received mode (other_control ∷ cs) x e = extract-received mode cs x e

-- The two bits are never set together inside the loop.
extract-sent :
    (mode : TsMode) (cs : List Control) (t : Timespec) (stamped origin : Bool)
    → is_userland mode ≡ false
    → (stamped && origin) ≡ false
    → (extract mode true cs (bits t stamped origin)).0
      ≡ result ((stamped || has_time mode cs) && (origin || has_origin cs))
unfolding extract
extract-sent mode cs t true true e h = cc
extract-sent mode [] t true false e h = refl
extract-sent mode [] t false origin e h = refl
extract-sent mode (scm_timestamping sys hw raw ∷ cs) t true false e h =
    rw e (extract-sent mode cs (pick mode sys raw t) true false e refl)
extract-sent mode (scm_timestamping sys hw raw ∷ cs) t false false e h =
    rw e (extract-sent mode cs (pick mode sys raw t) true false e refl)
extract-sent mode (scm_timestamping sys hw raw ∷ cs) t false true e h = rw e
extract-sent mode (scm_timestampns u ∷ cs) t true false e h =
    rw e (extract-sent mode cs t true false e refl)
extract-sent mode (scm_timestampns u ∷ cs) t false origin e h =
    rw e (extract-sent mode cs t false origin e refl)
extract-sent mode (ipv6_recverr true ∷ cs) t true false e h = refl
extract-sent mode (ipv6_recverr true ∷ cs) t false false e h =
    extract-sent mode cs t false true e refl
extract-sent mode (ipv6_recverr true ∷ cs) t false true e h =
    extract-sent mode cs t false true e refl
extract-sent mode (ipv6_recverr false ∷ cs) t true false e h =
    extract-sent mode cs t true false e refl
extract-sent mode (ipv6_recverr false ∷ cs) t false origin e h =
    extract-sent mode cs t false origin e refl
extract-sent mode (other_control ∷ cs) t true false e h = extract-sent mode cs t true false e refl
extract-sent mode (other_control ∷ cs) t false origin e h =
    extract-sent mode cs t false origin e refl

-- What `tstamp_extract` needs: a time of the mode, and, for a packet sent, in the modes of
-- SO_TIMESTAMPING, the message that says that the packet is here for its time.
abbrev pub is_enough : TsMode → Bool → List Control → Bool
is_enough mode tx cs = has_time mode cs && (not tx || is_userland mode || has_origin cs)

with_origin : (a : Bool) → (a && true) ≡ a
with_origin a = ground arith

-- `tstamp_extract` returns 0 exactly if the control messages, in whatever order, hold a time of the
-- mode and, for a packet sent and a mode other than userland, the message about its origin; else -1.
pub tstamp_extract-is_enough :
    (mode : TsMode) (tx : Bool) (cs : List Control)
    → (tstamp_extract mode tx cs).0 ≡ result (is_enough mode tx cs)
unfolding tstamp_extract
tstamp_extract-is_enough userland true cs =
    extract-userland true cs _ false ∙ ap result (sym (with_origin _))
tstamp_extract-is_enough userland false cs =
    extract-userland false cs _ false ∙ ap result (sym (with_origin _))
tstamp_extract-is_enough hardware false cs =
    extract-received hardware cs first_extract refl ∙ ap result (sym (with_origin _))
tstamp_extract-is_enough hardware true cs = extract-sent hardware cs _ false false refl refl
tstamp_extract-is_enough kernel false cs =
    extract-received kernel cs first_extract refl ∙ ap result (sym (with_origin _))
tstamp_extract-is_enough kernel true cs = extract-sent kernel cs _ false false refl refl
