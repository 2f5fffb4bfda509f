-- ===== src/Tftp/Request.antt =====
-- tftpd.c: the check of the file that a client asks for (`validate_access`). A string is the list of its
-- characters without the final 0.
use baseliner_docker.Base.{
  ℕ, ◌+◌, List, [], ◌∷◌, ◌++◌, Option, none, some, Bool, true, false, ◌&&◌, ◌||◌, ◌==◌, ◌≡◌, refl,
  if◌then◌else◌, arith, take,
}

abbrev pub dot : ℕ
dot = 46

abbrev pub slash : ℕ
slash = 47

-- The error codes of tftp.h that are used here.
abbrev pub enotfound : ℕ
enotfound = 1

abbrev pub eaccess : ℕ
eaccess = 2

pub data Opcode : Type 0 where
  rrq wrq : Opcode

-- What `stat` says of a file.
pub data StatResult : Type 0 where
  no_entry : StatResult
  stat_failed : StatResult
  -- readable and writable by others
  found : Bool → Bool → StatResult

-- The system: `*dirs`, if there is one, `stat`, and `open` and `fdopen`, which fail with an `errno`.
pub record System : Type 0 where
  pub dir : Option (List ℕ)
  pub stat : List ℕ → StatResult
  pub open_file : List ℕ → Opcode → Option ℕ

-- `strncmp(s, "/../", 4) == 0`
abbrev pub starts_up : List ℕ → Bool
starts_up (a ∷ b ∷ c ∷ d ∷ r) = a == slash && b == dot && c == dot && d == slash
starts_up (a ∷ b ∷ c ∷ []) = false
starts_up (a ∷ b ∷ []) = false
starts_up (a ∷ []) = false
starts_up [] = false

-- The loop over the name behind its first character: `prev` is `*(cp-1)`.
unfoldable pub climbs_from : ℕ → List ℕ → Bool
climbs_from prev [] = false
climbs_from prev (c ∷ cs) = (c == dot && starts_up (prev ∷ c ∷ cs)) || climbs_from c cs

-- `*cp == '.'` at the start of the name, or "/../" from the character before.
unfoldable pub climbs : List ℕ → Bool
climbs [] = false
climbs (c ∷ cs) = c == dot || climbs_from c cs

abbrev pub strip_slash : List ℕ → List ℕ
strip_slash [] = []
strip_slash (c ∷ cs) = if c == slash then cs else c ∷ cs

-- `snprintf(fnamebuf, sizeof(fnamebuf)-1, "%s/%s", *dirs, filename)`
unfoldable pub full_name : List ℕ → List ℕ → List ℕ
full_name dir name = take 1534 (dir ++ slash ∷ strip_slash name)

abbrev pub permitted : Opcode → Bool → Bool → Bool
permitted rrq readable writable = readable
permitted wrq readable writable = writable

-- 0, or errno + 100
abbrev pub open_result : Option ℕ → ℕ
open_result none = 0
open_result (some e) = e + 100

abbrev pub check_stat : System → List ℕ → Opcode → StatResult → ℕ
check_stat y path op no_entry = enotfound
check_stat y path op stat_failed = eaccess
check_stat y path op (found readable writable) =
    if permitted op readable writable then open_result (y.open_file path op) else eaccess

abbrev pub in_dir : System → List ℕ → Opcode → Option (List ℕ) → ℕ
in_dir y name op none = eaccess
in_dir y name op (some d) = check_stat y (full_name d name) op (y.stat (full_name d name))

-- `validate_access`: 0, or the error code.
unfoldable pub validate_access : System → List ℕ → Opcode → ℕ
validate_access y name op = if climbs name then eaccess else in_dir y name op y.dir

abbrev pub up : List ℕ
up = slash ∷ dot ∷ dot ∷ slash ∷ []

or_true : (a : Bool) → (a || true) ≡ true
or_true a = ground arith

climbs_from-up : (prev : ℕ) (pre post : List ℕ) → climbs_from prev (pre ++ (up ++ post)) ≡ true
unfolding climbs_from
climbs_from-up prev [] post = refl
climbs_from-up prev (c ∷ cs) post = rw (climbs_from, climbs_from-up c cs post) (or_true _)

climbs-up : (pre post : List ℕ) → climbs (pre ++ (up ++ post)) ≡ true
unfolding climbs climbs_from
climbs-up [] post = refl
climbs-up (c ∷ cs) post = rw (climbs_from-up c cs post) (or_true _)

-- A name that contains "/../", or begins with a dot, is refused with EACCESS, whatever directory is
-- served and whatever files there are.
pub validate_access-up :
    (y : System) (op : Opcode) (pre post : List ℕ)
    → (validate_access y (pre ++ (up ++ post)) op ≡ eaccess)
      × (validate_access y (dot ∷ post) op ≡ eaccess)
unfolding validate_access climbs
validate_access-up y op pre post = (rw (climbs-up pre post), refl)
