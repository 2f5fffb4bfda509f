-- ===== src/Ninfod/Node.antt =====
-- ninfod_name.c: the name of the node, its group, and the answer to a query for it
-- (`init_nodeinfo_nodename`, `check_nigroup`, `pr_nodeinfo_nodename`). The digest is a parameter, and
-- so are the outcomes of setsockopt and ni_malloc and the name that uname gives.
use baseliner_docker.Base.{
  ℕ, ◌+◌, suc, Bool, false, not, ◌&&◌, if◌then◌else◌, ◌==◌, List, [], ◌∷◌, length, take, Option,
  none, some, pos, eqb_ℤ,
}
use baseliner_docker.Ninfod.Compare.{
  same_bytes, Compared, answer, fault, unfinished, compare_dnsname,
}
use baseliner_docker.Ninfod.Encode.{Encoded, returned, failed, running, encode_dnsname}

-- A call of setsockopt for a group, and whether it succeeds.
pub data Call : Type 0 where
  join_group leave_group : List ℕ → Bool → Call

-- `utsname` and `nigroup`, none for the address ::, with the first `nodenamelen` bytes of `nodename`;
-- `calls` are those made, the last one first.
pub record Node : Type 0 where
  pub utsname : List ℕ
  pub nodename : List ℕ
  pub nigroup : Option (List ℕ)
  pub calls : List Call

abbrev pub max_dnsname_size : ℕ
max_dnsname_size = 255

abbrev pub head_byte : List ℕ → ℕ
head_byte [] = 0
head_byte (b ∷ rest) = b

unfoldable pub nodeinfo_group : (List ℕ → List ℕ) → List ℕ → List ℕ
nodeinfo_group md5 dnsname =
    255
    ∷ 2
    ∷ 0
    ∷ 0
    ∷ 0
    ∷ 0
    ∷ 0
    ∷ 0
    ∷ 0
    ∷ 0
    ∷ 0
    ∷ 2
    ∷ take 4 (md5 (take (head_byte dnsname) dnsname))

-- `nigroup` is left alone where the call succeeds, and cleared where it fails.
unfoldable pub leave_group_of : Option (List ℕ) → Bool → Node → Node
leave_group_of none ok node = node
leave_group_of (some g) ok node = record node {
  nigroup = if ok then some g else none;
  calls = leave_group g ok ∷ node.calls;
}

unfoldable pub leave_old : Bool → Node → Node
leave_old ok node = leave_group_of node.nigroup ok node

unfoldable pub join_new : (List ℕ → List ℕ) → Bool → Node → Node
join_new md5 ok node =
    let g = nodeinfo_group md5 node.nodename in
    if length node.nodename == 0
    then record node { nigroup = none }
    else record node { nigroup = if ok then some g else none; calls = join_group g ok ∷ node.calls }

-- What `nodenamelen` bytes encode_dnsname has left in `nodename`; none while it runs.
abbrev pub bytes_of : Encoded → Option (List ℕ)
bytes_of (returned name) = some name
bytes_of failed = some []
bytes_of running = none

-- `encode_dnsname` with its fuel: a round for each byte of the name and one more.
unfoldable pub encoded_name : List ℕ → Option (List ℕ)
encoded_name name =
    bytes_of (encode_dnsname (suc (suc (length name))) name max_dnsname_size (pos 0))

-- `init_nodeinfo_nodename` where uname gives `newname`.
unfoldable pub init_nodeinfo_nodename :
    (List ℕ → List ℕ) → Bool → List ℕ → Bool → Bool → Node → Option Node
init_nodeinfo_nodename md5 forced newname left joined node =
    if same_bytes newname node.utsname && not forced
    then some node
    else elim (encoded_name newname) [
      | none ↦ none
      | some name ↦ some (
          join_new md5 joined
            (record (leave_old left (record node { utsname = newname })) { nodename = name }))
    ]

unfoldable pub check_nigroup : Node → List ℕ → Bool
check_nigroup node addr = elim node.nigroup [
  | none ↦ false
  | some g ↦ (head_byte g == 255) && same_bytes g addr
]

abbrev pub icmp6_ni_reply : ℕ
icmp6_ni_reply = 140

abbrev pub icmp6_ni_success : ℕ
icmp6_ni_success = 0

abbrev pub ni_qtype_dnsname : ℕ
ni_qtype_dnsname = 2

-- The reply in the packet context; `ni_qtype` is in the order of the host.
pub record Reply : Type 0 where
  pub ni_type : ℕ
  pub ni_code : ℕ
  pub ni_cksum : ℕ
  pub ni_qtype : ℕ
  pub ni_flags : ℕ
  pub replydatalen : ℕ
  pub replydata : Option (List ℕ)

-- What a query comes to: not for this node, or with what is put at `subj_if` and the reply, if asked
-- for.
pub data Query : Type 0 where
  refused : Query
  accepted : Option ℕ → Option Reply → Query
  stuck : Query

-- The reply, where `room` tells whether ni_malloc succeeds.
unfoldable pub reply_for : Bool → Node → Reply
reply_for room node =
    let some_name = not (length node.nodename == 0) in
    record {
      ni_type = icmp6_ni_reply;
      ni_code = icmp6_ni_success;
      ni_cksum = 0;
      ni_qtype = ni_qtype_dnsname;
      ni_flags = 0;
      replydatalen = if some_name then 4 + length node.nodename else 0;
      replydata = if some_name && room then some (0 ∷ 0 ∷ 0 ∷ 0 ∷ node.nodename) else none;
    }

abbrev pub if_same : Compared → Query → Query
if_same (answer r) q = if eqb_ℤ r (pos 0) then q else refused
if_same fault q = stuck
if_same unfinished q = stuck

-- What each call of init_nodeinfo_nodename finds.
pub record Init : Type 0 where
  pub forced : Bool
  pub newname : List ℕ
  pub left : Bool
  pub joined : Bool

abbrev pub start : Node
start = record { utsname = []; nodename = []; nigroup = none; calls = [] }

abbrev pub and_next : (Node → Option Node) → Option Node → Option Node
and_next next none = none
and_next next (some node) = next node

unfoldable pub init_all : (List ℕ → List ℕ) → List Init → Node → Option Node
init_all md5 [] node = some node
init_all md5 (c ∷ cs) node =
    and_next (λ node'. init_all md5 cs node')
      (init_nodeinfo_nodename md5 c.forced c.newname c.left c.joined node)

-- A query: the subject, the index of its interface, and the place `subj_if`, if that is not NULL; then
-- `reply`, and whether ni_malloc succeeds.
pub record Asked : Type 0 where
  pub subject : Option (List ℕ)
  pub ifindex : ℕ
  pub subj_if : Bool
  pub reply : Bool
  pub room : Bool

-- `pr_nodeinfo_nodename`; the first argument is the fuel of compare_dnsname.
unfoldable pub pr_nodeinfo_nodename : ℕ → Asked → Node → Query
pr_nodeinfo_nodename fuel a node = elim a.subject [
  | none ↦ accepted none (if a.reply then some (reply_for a.room node) else none)
  | some subject ↦
      if length node.nodename == 0
      then refused
      else if_same (compare_dnsname fuel subject node.nodename) (
          accepted (if a.subj_if then some a.ifindex else none)
            (if a.reply then some (reply_for a.room node) else none))
]
