-- ===== src/Tftp/Dispatch.antt =====
-- tftpd.c: the request (`main`, behind the sockets, and `tftp`). `mem` is the memory from `buf` on, and
-- `size` the length of the packet; a string is the list of its characters without the final 0.
use mathlib.Core.Path.{subst}
use baseliner_docker.Base.{
  ℕ, zero, suc, ◌+◌, ◌-◌, ◌*◌, ◌<◌, List, [], ◌∷◌, ◌++◌, Option, none, some, Bool, true, false,
  ◌&&◌, ◌==◌, leb, ◌≡◌, refl, if◌then◌else◌, arith, length, Bool-cases, inl, inr, ==_iff, if_rule,
}
use baseliner_docker.Tftp.Request.{Opcode, rrq, wrq, System, validate_access}
use baseliner_docker.Tftp.Granting.{Granted, validate_access-Granted}

-- `while (cp < buf + size) { if (*cp == '\0') break; cp++; }`, with the bytes that are left
unfoldable pub skip_string : (ℕ → ℕ) → ℕ → ℕ → ℕ
skip_string mem zero cp = cp
skip_string mem (suc n) cp =
    let rest = skip_string mem n (suc cp) in if mem cp == 0 then cp else rest

-- The string at an address, of n characters at most.
unfoldable pub string_at : (ℕ → ℕ) → ℕ → ℕ → List ℕ
string_at mem zero cp = []
string_at mem (suc n) cp =
    let rest = string_at mem n (suc cp) in if mem cp == 0 then [] else mem cp ∷ rest

-- `if (isupper(*cp)) *cp = tolower(*cp);`
abbrev pub lower : ℕ → ℕ
lower c = if leb 65 c && leb c 90 then c + 32 else c

unfoldable pub lower_all : List ℕ → List ℕ
lower_all [] = []
lower_all (c ∷ cs) = lower c ∷ lower_all cs

-- `strcmp(a, b) == 0`
unfoldable pub same_string : List ℕ → List ℕ → Bool
same_string [] [] = true
same_string [] (d ∷ ds) = false
same_string (c ∷ cs) [] = false
same_string (c ∷ cs) (d ∷ ds) = c == d && same_string cs ds

-- "netascii" and "octet"
abbrev pub netascii : List ℕ
netascii = 110 ∷ 101 ∷ 116 ∷ 97 ∷ 115 ∷ 99 ∷ 105 ∷ 105 ∷ []

abbrev pub octet : List ℕ
octet = 111 ∷ 99 ∷ 116 ∷ 101 ∷ 116 ∷ []

-- The entry of `formats`, by its f_convert.
unfoldable pub find_format : List ℕ → Option Bool
find_format mode =
    if same_string netascii mode
    then some true
    else if same_string octet mode
    then some false
    else none

abbrev pub ebadop : ℕ
ebadop = 4

-- How the program goes on: an error packet, sendfile or recvfile with the file and f_convert, or
-- nothing.
pub data Answer : Type 0 where
  nak : ℕ → Answer
  sends receives : List ℕ → Bool → Answer
  nothing : Answer

abbrev pub transfer : Opcode → List ℕ → Bool → Answer
transfer rrq name convert = sends name convert
transfer wrq name convert = receives name convert

-- `tftp` from the search for the format on.
unfoldable pub answer : System → Opcode → List ℕ → Option Bool → Answer
answer y op name none = nak ebadop
answer y op name (some convert) =
    let ecode = validate_access y name op in
    if ecode == 0 then transfer op name convert else nak ecode

-- th_stuff is behind the two bytes of th_opcode.
unfoldable pub tftp : System → (ℕ → ℕ) → ℕ → Opcode → Answer
tftp y mem size op =
    let cp = skip_string mem (size - 2) 2 in
    let mode = suc cp in
    let cp' = skip_string mem (size - mode) mode in
    if mem cp == 0
    then (if mem cp' == 0
        then answer y op (string_at mem (cp - 2) 2)
            (find_format (lower_all (string_at mem (cp' - mode) mode)))
        else nak ebadop)
    else nak ebadop

-- `main`: ntohs(tp->th_opcode), RRQ or WRQ.
unfoldable pub serve : System → (ℕ → ℕ) → ℕ → Answer
serve y mem size =
    let code = mem 0 * 256 + mem 1 in
    if code == 1 then tftp y mem size rrq else if code == 2 then tftp y mem size wrq else nothing

-- The characters are in memory from k on.
abbrev pub Holds : (ℕ → ℕ) → ℕ → List ℕ → Type 0
Holds mem k [] = Unit
Holds mem k (c ∷ cs) = (mem k ≡ c) × Holds mem (suc k) cs

abbrev pub NoZero : List ℕ → Type 0
NoZero [] = Unit
NoZero (c ∷ cs) = (0 < c) × NoZero cs

module _ (mem : ℕ → ℕ) where
  skip_string_lem :
      (s r : List ℕ) (n k : ℕ)
      → Holds mem k (s ++ 0 ∷ r)
      → NoZero s
      → length s < n
      → (skip_string mem n k ≡ k + length s)
        × (mem (k + length s) ≡ 0)
        × Holds mem (suc (k + length s)) r
  unfolding skip_string
  skip_string_lem s r zero k h z l = absurd (omega arith)
  skip_string_lem [] r (suc n) k h z l =
      let e : k ≡ k + 0 = omega arith in
      subst (λ a. (skip_string mem (suc n) k ≡ a) × (mem a ≡ 0) × Holds mem (suc a) r) e
        (ground (arith, h.0), h.0, h.1)
  skip_string_lem (c ∷ s) r (suc n) k h z l =
      let ih = skip_string_lem s r n (suc k) h.1 z.1 (omega arith) in
      let e : suc k + length s ≡ k + suc (length s) = omega arith in
      subst (λ a. (skip_string mem (suc n) k ≡ a) × (mem a ≡ 0) × Holds mem (suc a) r) e
        (ground (arith, h.0, z.0, ih.0), ih.1, ih.2)

  string_at_lem :
      (s r : List ℕ) (k : ℕ) → Holds mem k (s ++ r) → NoZero s → string_at mem (length s) k ≡ s
  unfolding string_at
  string_at_lem [] r k h z = refl
  string_at_lem (c ∷ s) r k h z = ground (arith, string_at_lem s r (suc k) h.1 z.1)

-- A request, as RFC 1350 lays it out: the code, the name of the file and the mode, each with a 0
-- behind it.
abbrev pub code_of : Opcode → ℕ
code_of rrq = 1
code_of wrq = 2

abbrev pub request : Opcode → List ℕ → List ℕ → List ℕ
request op name mode = 0 ∷ code_of op ∷ (name ++ 0 ∷ (mode ++ 0 ∷ []))

module _ (y : System) (mem : ℕ → ℕ) (name mode : List ℕ) (nz : NoZero name) (mz : NoZero mode) where
  tftp_lem :
      (op : Opcode)
      → Holds mem 2 (name ++ 0 ∷ (mode ++ 0 ∷ []))
      → tftp y mem (4 + length name + length mode) op
        ≡ answer y op name (find_format (lower_all mode))
  unfolding tftp
  tftp_lem op h =
      let n = length name in
      let m = length mode in
      let p = skip_string_lem mem name (mode ++ 0 ∷ []) (2 + n + m) 2 h nz (omega arith) in
      let q = skip_string_lem mem mode [] (1 + m) (suc (2 + n)) p.2 mz (omega arith) in
      let left : 4 + n + m - 2 ≡ 2 + n + m = omega arith in
      let left' : 4 + n + m - suc (2 + n) ≡ 1 + m = omega arith in
      let len : 2 + n - 2 ≡ n = omega arith in
      let len' : suc (2 + n) + m - suc (2 + n) ≡ m = omega arith in
      rw
        (
          left,
          p.0,
          left',
          q.0,
          len,
          len',
          p.1,
          q.1,
          string_at_lem mem name (0 ∷ (mode ++ 0 ∷ [])) 2 h nz,
          string_at_lem mem mode (0 ∷ []) (suc (2 + n)) p.2 mz,
        )
        refl

  -- A packet laid out as a request, for a name and a mode without a 0 in them, is answered by that name
  -- and by the format that has the mode, in lower case: with sendfile or recvfile, as the code says, if
  -- `validate_access` lets the file through, with its error code if it does not, and with EBADOP if
  -- no format has the mode.
  pub serve-request :
      (op : Opcode)
      → Holds mem 0 (request op name mode)
      → serve y mem (4 + length name + length mode)
        ≡ answer y op name (find_format (lower_all mode))
  unfolding serve
  serve-request rrq h =
      let e : (mem 0 * 256 + mem 1 == 1) ≡ true = ground (arith, h.0, h.1.0) in
      rw e (tftp_lem rrq h.1.1)
  serve-request wrq h =
      let e : (mem 0 * 256 + mem 1 == 1) ≡ false = ground (arith, h.0, h.1.0) in
      let f : (mem 0 * 256 + mem 1 == 2) ≡ true = ground (arith, h.0, h.1.0) in
      rw (e, f) (tftp_lem wrq h.1.1)

-- What an answer says of the file.
unfoldable pub Serves : System → Answer → Type 0
Serves y (nak e) = 0 < e
Serves y (sends name convert) = Granted y name rrq
Serves y (receives name convert) = Granted y name wrq
Serves y nothing = Unit

Serves-transfer :
    (y : System) (op : Opcode) (name : List ℕ) (convert : Bool)
    → Granted y name op
    → Serves y (transfer op name convert)
unfolding Serves
Serves-transfer y rrq name convert g = g
Serves-transfer y wrq name convert g = g

Serves-nak : (y : System) (e : ℕ) → 0 < e → Serves y (nak e)
unfolding Serves
Serves-nak y e h = h

Serves-nothing : (y : System) → Serves y nothing
unfolding Serves
Serves-nothing y = tt

Serves-answer :
    (y : System) (op : Opcode) (name : List ℕ) (f : Option Bool) → Serves y (answer y op name f)
unfolding answer
Serves-answer y op name none = Serves-nak y ebadop (omega arith)
Serves-answer y op name (some convert) = elim (Bool-cases (validate_access y name op == 0)) [
  | inl e ↦ rw e (
      Serves-transfer y op name convert
        (validate_access-Granted y name op ((==_iff (validate_access y name op) 0).0 e)))
  | inr e ↦ rw e (Serves-nak y (validate_access y name op) (ground arith))
]

Serves-tftp : (y : System) (mem : ℕ → ℕ) (size : ℕ) (op : Opcode) → Serves y (tftp y mem size op)
unfolding tftp
Serves-tftp y mem size op =
    if_rule (Serves y) _
      (if_rule (Serves y) _ (Serves-answer y op _ _) (Serves-nak y ebadop (omega arith)))
      (Serves-nak y ebadop (omega arith))

-- Whatever packet comes, of any length and with any bytes in it and behind it: a file is sent only if
-- it is granted for reading, and received only if it is granted for writing; an error packet carries
-- an error code that is not 0.
pub Serves-serve : (y : System) (mem : ℕ → ℕ) (size : ℕ) → Serves y (serve y mem size)
unfolding serve
Serves-serve y mem size =
    if_rule (Serves y) _ (Serves-tftp y mem size rrq)
      (if_rule (Serves y) _ (Serves-tftp y mem size wrq) (Serves-nothing y))
