-- ===== src/Ninfod/Answering.antt =====
-- The answers of a node whose name is well formed.
use baseliner_docker.Base.{
  ℕ, ◌+◌, ◌<◌, ◌≤◌, Bool, true, false, ◌&&◌, if◌then◌else◌, ◌==◌, List, [], ◌∷◌, ◌++◌, length, none,
  some, ℤ, pos, eqb_ℤ, arith, ◌≡◌, refl, ap, length-append,
}
use baseliner_docker.Ninfod.Compare.{same_bytes, answer, compare_dnsname}
use baseliner_docker.Ninfod.Rounds.{dns_name, AllLabels, matched}
use baseliner_docker.Ninfod.Matching.{length-dns_name, compare_dnsname-dns_name}
use baseliner_docker.Ninfod.Encoding.{
  dots, AllValid, lower_labels, length-lower_all, length-dns_name-lower_labels, length-dots,
  encode_dnsname-dns_name,
}
use baseliner_docker.Ninfod.Node.{
  max_dnsname_size, join_group, Node, nodeinfo_group, leave_old, join_new, check_nigroup, bytes_of,
  encoded_name, init_nodeinfo_nodename, refused, accepted, pr_nodeinfo_nodename, reply_for, Reply,
  Asked, Query,
}

AllLabels-lower_labels : (ls : List (List ℕ)) → AllValid ls → AllLabels (lower_labels ls)
AllLabels-lower_labels [] a = tt
AllLabels-lower_labels (l ∷ ls) a =
    let e = length-lower_all l in
    (omega (arith, e, a.0.0), omega (arith, e, a.0.1), AllLabels-lower_labels ls a.1)

encoded_name-dns_name :
    (fqdn : Bool) (l : List ℕ) (ls : List (List ℕ))
    → AllValid (l ∷ ls)
    → length (l ++ dots fqdn ls) ≤ 64
    → encoded_name (l ++ dots fqdn ls) ≡ some (dns_name fqdn (lower_labels (l ∷ ls)))
unfolding encoded_name
encoded_name-dns_name fqdn l ls v short = ap bytes_of (
    encode_dnsname-dns_name _ fqdn l ls max_dnsname_size v (omega (arith, short))
      (omega (arith, short, length-dns_name-lower_labels fqdn l ls))
      (omega (arith, length-append l (dots fqdn ls), length-dots fqdn ls)))

-- The reply that tells a name: a time to live of 0, and the name.
abbrev pub name_reply : Bool → List ℕ → Reply
name_reply room name = record {
  ni_type = 140;
  ni_code = 0;
  ni_cksum = 0;
  ni_qtype = 2;
  ni_flags = 0;
  replydatalen = 4 + length name;
  replydata = if room then some (0 ∷ 0 ∷ 0 ∷ 0 ∷ name) else none;
}

abbrev pub query : List ℕ → ℕ → Bool → Bool → Bool → Asked
query subject ifindex subj_if reply room = record {
  subject = some subject;
  ifindex = ifindex;
  subj_if = subj_if;
  reply = reply;
  room = room;
}

abbrev pub taken : ℕ → Bool → Bool → Bool → List ℕ → Query
taken ifindex subj_if reply room name =
    accepted (if subj_if then some ifindex else none)
      (if reply then some (name_reply room name) else none)

module _ (node : Node) (some_byte : (length node.nodename == 0) ≡ false) where
  joins :
      (md5 : List ℕ → List ℕ) (ok : Bool)
      → join_new md5 ok node ≡ record node {
        nigroup = if ok then some (nodeinfo_group md5 node.nodename) else none;
        calls = join_group (nodeinfo_group md5 node.nodename) ok ∷ node.calls;
      }
  unfolding join_new
  joins md5 ok = rw some_byte refl

  replies : (room : Bool) → reply_for room node ≡ name_reply room node.nodename
  unfolding reply_for
  replies true = rw some_byte refl
  replies false = rw some_byte refl

  checks :
      (md5 : List ℕ → List ℕ) (addr : List ℕ) (ok : Bool)
      → check_nigroup
          (record node { nigroup = if ok then some (nodeinfo_group md5 node.nodename) else none })
          addr
        ≡ (ok && same_bytes (nodeinfo_group md5 node.nodename) addr)
  unfolding check_nigroup nodeinfo_group
  checks md5 addr true = refl
  checks md5 addr false = refl

  answers :
      (fuel : ℕ) (subject : List ℕ) (r : ℤ) (ifindex : ℕ) (subj_if reply room : Bool)
      → compare_dnsname fuel subject node.nodename ≡ answer r
      → pr_nodeinfo_nodename fuel (query subject ifindex subj_if reply room) node
        ≡ (if eqb_ℤ r (pos 0) then taken ifindex subj_if reply room node.nodename else refused)
  unfolding pr_nodeinfo_nodename
  answers fuel subject r ifindex subj_if reply room c =
      rw (some_byte, c)
        (ap
          (λ d.
            if eqb_ℤ r (pos 0)
            then accepted (if subj_if then some ifindex else none) (if reply then some d else none)
            else refused)
          (replies room))

-- Set up for a name of valid labels with dots between them, 64 bytes at most, the node has the group of
-- its name in the form of DNS, unless the join fails, and takes exactly that address for its group. It
-- takes a query for a subject of labels of 1 to 63 bytes if compare_dnsname matches the two, and refuses
-- it otherwise; it then puts the index of the interface where it was asked to, and the data of the
-- reply, if there is memory for them, is a time to live of 0 and that name.
pub pr_nodeinfo_nodename-init_nodeinfo_nodename :
    (md5 : List ℕ → List ℕ) (fuel : ℕ) (fqdn g : Bool) (l : List ℕ) (ls ms : List (List ℕ))
    (addr : List ℕ) (ifindex : ℕ) (left joined subj_if reply room : Bool) (node : Node)
    → AllValid (l ∷ ls)
    → length (l ++ dots fqdn ls) ≤ 64
    → AllLabels ms
    → length ms < fuel
    → (node' : Node) × (init_nodeinfo_nodename md5 true (l ++ dots fqdn ls) left joined node
        ≡ some node')
      × (node'.nigroup ≡ (
          if joined
          then some (nodeinfo_group md5 (dns_name fqdn (lower_labels (l ∷ ls))))
          else none))
      × (check_nigroup node' addr ≡ (
          joined && same_bytes (nodeinfo_group md5 (dns_name fqdn (lower_labels (l ∷ ls)))) addr))
      × (pr_nodeinfo_nodename fuel (query (dns_name g ms) ifindex subj_if reply room) node' ≡ (
          if eqb_ℤ (matched fqdn ms (lower_labels (l ∷ ls))) (pos 0)
          then taken ifindex subj_if reply room (dns_name fqdn (lower_labels (l ∷ ls)))
          else refused))
unfolding init_nodeinfo_nodename
pr_nodeinfo_nodename-init_nodeinfo_nodename md5 fuel fqdn g l ls ms addr ifindex left joined subj_if
      reply room node v short a h =
    let name = l ++ dots fqdn ls in
    let dns = dns_name fqdn (lower_labels (l ∷ ls)) in
    let e = encoded_name-dns_name fqdn l ls v short in
    let again : (same_bytes name node.utsname && false) ≡ false = ground arith in
    let c =
      compare_dnsname-dns_name fuel g fqdn ms (lower_labels (l ∷ ls)) a
        (AllLabels-lower_labels (l ∷ ls) v) h in
    let node2 = record (leave_old left (record node { utsname = name })) { nodename = dns } in
    let some_byte : (length dns == 0) ≡ false =
      ground (arith, length-dns_name fqdn (lower_labels (l ∷ ls))) in
    let node' = record node2 {
      nigroup = if joined then some (nodeinfo_group md5 dns) else none;
      calls = join_group (nodeinfo_group md5 dns) joined ∷ node2.calls;
    } in
    (
      node',
      rw (again, e) (ap some (joins node2 some_byte md5 joined)),
      refl,
      checks node' some_byte md5 addr joined,
      answers node' some_byte fuel (dns_name g ms) _ ifindex subj_if reply room c,
    )
